-- ===== src/Std/Stdio/Printf.antt =====
-- `printf` and the printers below it. The arguments that the caller has pushed are bytes of the stack;
-- a pointer to a string stands for the string there. The result `none` is the undefined behaviour of
-- int_to_string.
pub mod Pieces
use Prim.Native.Char.{code}
use Prim.Native.String.{String}
use my_os.Base.{
  ℕ, zero, suc, ◌+◌, ◌*◌, ◌^◌, Bool, true, false, Option, none, some, List, [], ◌∷◌, ◌==◌,
  if◌then◌else◌,
}
use my_os.Screen.{Screen, put_char, put_string}
use my_os.Std.Stdlib.{int_to_string}
use my_os.Std.Stdio.{hexa_size, int_to_hex_string}

-- The bytes of a text.
abbrev pub codes : String → List ℕ
codes String.[] = []
codes (String.◌∷◌ c s) = code c ∷ codes s

-- `put_string` of a buffer of at most `size` bytes, from index `i` on; a buffer without a NUL is shown
-- up to its end.
unfoldable pub put_buffer : (size i : ℕ) → (ℕ → ℕ) → Screen → Screen
put_buffer zero i buffer s = s
put_buffer (suc n) i buffer s = elim (buffer i == 0) [
  | true ↦ s
  | false ↦ put_buffer n (i + 1) buffer (put_char (buffer i) s)
]

-- `buffer` is what the local array holds at first, here and below.
unfoldable pub put_int : (buffer : ℕ → ℕ) → (num : ℕ) → Screen → Option Screen
unfolding put_buffer
put_int buffer num s = elim (int_to_string num buffer) [
  | none ↦ none
  | some num_str ↦ some (put_buffer 12 0 num_str s)
]

unfoldable pub put_hexa : (buffer : ℕ → ℕ) → (num : ℕ) → Screen → Screen
unfolding put_buffer
put_hexa buffer num s = put_buffer (hexa_size + 1) 0 (int_to_hex_string num buffer) s

unfoldable pub put_addr : (buffer : ℕ → ℕ) → (addr : ℕ) → Screen → Screen
unfolding put_buffer
put_addr buffer addr s = put_buffer (hexa_size + 1) 0 (int_to_hex_string addr buffer) s

unfoldable pub put_bool : Bool → Screen → Screen
put_bool b s = if b then put_string (codes "true") s else put_string (codes "false") s

-- What `va_arg` reads of four bytes.
unfoldable pub va_word : (stack : ℕ → ℕ) → (ap : ℕ) → ℕ
va_word stack ap =
    stack ap + 2 ^ 8 * stack (ap + 1) + 2 ^ 16 * stack (ap + 2) + 2 ^ 24 * stack (ap + 3)

module _ (buffer stack : ℕ → ℕ) (strings : ℕ → List ℕ) where
  -- The `switch` of `printf`, with the place of the next argument. The argument of `%c` counts as one
  -- byte.
  unfoldable pub convert : (format ap : ℕ) → Screen → Option (ℕ × Screen)
  unfolding put_int put_hexa put_addr put_bool va_word
  convert format ap s =
      if format == b's'
      then some (ap + 4, put_string (strings (va_word stack ap)) s)
      else if format == b'd'
      then elim (put_int buffer (va_word stack ap) s) [ none ↦ none | some s' ↦ some (ap + 4, s') ]
      else if format == b'p'
      then some (ap + 4, put_addr buffer (va_word stack ap) (put_string (codes "0x") s))
      else if format == b'x'
      then some (ap + 4, put_hexa buffer (va_word stack ap) (put_string (codes "0x") s))
      else if format == b'c'
      then some (ap + 1, put_char (stack ap) s)
      else if format == b'b'
      then some (ap + 4, put_bool (if va_word stack ap == 0 then false else true) s)
      else if format == b'%'
      then some (ap, put_char b'%' s)
      else some (ap, put_char format (put_char b'%' s))

  -- From the first argument on.
  unfoldable pub printf : (format : List ℕ) → (ap : ℕ) → Screen → Option Screen
  unfolding convert
  printf [] ap s = some s
  printf (c ∷ []) ap s = if c == b'%' then some s else some (put_char c s)
  printf (c ∷ (d ∷ format)) ap s = elim (c == b'%') [
    | true ↦ elim (convert d ap s) [ none ↦ none | some (ap', s') ↦ printf format ap' s' ]
    | false ↦ printf (d ∷ format) ap (put_char c s)
  ]

-- ===== src/Std/Stdio/Printf/Pieces.antt =====
-- `printf` of a format that is put together from pieces.
use my_os.Base.{
  ℕ, ◌+◌, ◌≡◌, refl, ◌∙◌, true, false, Option, none, some, List, [], ◌∷◌, ◌==◌, if◌then◌else◌,
  Option-cases, inl, inr,
}
use my_os.Screen.{Screen, put_char, put_string}
use my_os.Std.Stdio.Printf.{codes, put_int, put_hexa, put_addr, put_bool, va_word, convert, printf}

-- A plain character, an argument of each kind, and `%%`.
pub data Piece : Type 0 where
  plain : (c : ℕ) → Piece
  text : (address : ℕ) → Piece
  decimal : (num : ℕ) → Piece
  pointer : (addr : ℕ) → Piece
  hexadecimal : (num : ℕ) → Piece
  letter : (c : ℕ) → Piece
  truth : (b : ℕ) → Piece
  percent : Piece

abbrev pub format_of : List Piece → List ℕ
format_of [] = []
format_of (plain c ∷ ps) = c ∷ format_of ps
format_of (text address ∷ ps) = b'%' ∷ (b's' ∷ format_of ps)
format_of (decimal num ∷ ps) = b'%' ∷ (b'd' ∷ format_of ps)
format_of (pointer addr ∷ ps) = b'%' ∷ (b'p' ∷ format_of ps)
format_of (hexadecimal num ∷ ps) = b'%' ∷ (b'x' ∷ format_of ps)
format_of (letter c ∷ ps) = b'%' ∷ (b'c' ∷ format_of ps)
format_of (truth b ∷ ps) = b'%' ∷ (b'b' ∷ format_of ps)
format_of (percent ∷ ps) = b'%' ∷ (b'%' ∷ format_of ps)

-- Pieces without arguments; a plain character is not `%`.
abbrev pub NoArguments : List Piece → Type 0
NoArguments [] = Unit
NoArguments (plain c ∷ ps) = ((c == b'%') ≡ false) × NoArguments ps
NoArguments (text address ∷ ps) = ⊥
NoArguments (decimal num ∷ ps) = ⊥
NoArguments (pointer addr ∷ ps) = ⊥
NoArguments (hexadecimal num ∷ ps) = ⊥
NoArguments (letter c ∷ ps) = ⊥
NoArguments (truth b ∷ ps) = ⊥
NoArguments (percent ∷ ps) = NoArguments ps

-- From `args` on the stack holds the arguments in order, each in four bytes, as a caller pushes them; that
-- of a letter is the lowest byte of its four, and no piece after a letter has an argument. A plain
-- character is not `%`.
abbrev pub Pushed : (stack : ℕ → ℕ) → (args : ℕ) → List Piece → Type 0
Pushed stack args [] = Unit
Pushed stack args (plain c ∷ ps) = ((c == b'%') ≡ false) × Pushed stack args ps
Pushed stack args (text address ∷ ps) = (va_word stack args ≡ address) × Pushed stack (args + 4) ps
Pushed stack args (decimal num ∷ ps) = (va_word stack args ≡ num) × Pushed stack (args + 4) ps
Pushed stack args (pointer addr ∷ ps) = (va_word stack args ≡ addr) × Pushed stack (args + 4) ps
Pushed stack args (hexadecimal num ∷ ps) = (va_word stack args ≡ num) × Pushed stack (args + 4) ps
Pushed stack args (letter c ∷ ps) = (stack args ≡ c) × NoArguments ps
Pushed stack args (truth b ∷ ps) = (va_word stack args ≡ b) × Pushed stack (args + 4) ps
Pushed stack args (percent ∷ ps) = Pushed stack args ps

-- Pieces without arguments find theirs anywhere.
NoArguments-Pushed :
    (stack : ℕ → ℕ) (args : ℕ) (ps : List Piece) → NoArguments ps → Pushed stack args ps
NoArguments-Pushed stack args [] h = tt
NoArguments-Pushed stack args (plain c ∷ ps) (other, h) =
    (other, NoArguments-Pushed stack args ps h)
NoArguments-Pushed stack args (text address ∷ ps) h = absurd h
NoArguments-Pushed stack args (decimal num ∷ ps) h = absurd h
NoArguments-Pushed stack args (pointer addr ∷ ps) h = absurd h
NoArguments-Pushed stack args (hexadecimal num ∷ ps) h = absurd h
NoArguments-Pushed stack args (letter c ∷ ps) h = absurd h
NoArguments-Pushed stack args (truth b ∷ ps) h = absurd h
NoArguments-Pushed stack args (percent ∷ ps) h = NoArguments-Pushed stack args ps h

-- What is shown, piece by piece.
abbrev pub shown : (buffer : ℕ → ℕ) → (strings : ℕ → List ℕ) → List Piece → Screen → Option Screen
shown buffer strings [] s = some s
shown buffer strings (plain c ∷ ps) s = shown buffer strings ps (put_char c s)
shown buffer strings (text address ∷ ps) s =
    shown buffer strings ps (put_string (strings address) s)
shown buffer strings (decimal num ∷ ps) s = elim (put_int buffer num s) [
  | none ↦ none
  | some s' ↦ shown buffer strings ps s'
]
shown buffer strings (pointer addr ∷ ps) s =
    shown buffer strings ps (put_addr buffer addr (put_string (codes "0x") s))
shown buffer strings (hexadecimal num ∷ ps) s =
    shown buffer strings ps (put_hexa buffer num (put_string (codes "0x") s))
shown buffer strings (letter c ∷ ps) s = shown buffer strings ps (put_char c s)
shown buffer strings (truth b ∷ ps) s =
    shown buffer strings ps (put_bool (if b == 0 then false else true) s)
shown buffer strings (percent ∷ ps) s = shown buffer strings ps (put_char b'%' s)

module _ (buffer stack : ℕ → ℕ) (strings : ℕ → List ℕ) where
  printf-plain :
      (c : ℕ) (format : List ℕ) (args : ℕ) (s : Screen)
      → (c == b'%') ≡ false
      → printf buffer stack strings (c ∷ format) args s
        ≡ printf buffer stack strings format args (put_char c s)
  unfolding printf
  printf-plain c [] args s other = rw (other, printf) refl
  printf-plain c (d ∷ format) args s other = rw (other, printf) refl

  printf-converts :
      (d : ℕ) (format : List ℕ) (args args' : ℕ) (s s' : Screen)
      → convert buffer stack strings d args s ≡ some (args', s')
      → printf buffer stack strings (b'%' ∷ (d ∷ format)) args s
        ≡ printf buffer stack strings format args' s'
  unfolding printf
  printf-converts d format args args' s s' e = rw (e, printf) refl

-- A number goes as the rest of the format does, and stops `printf` where it cannot be printed.
printf-decimal :
    (buffer stack : ℕ → ℕ) (strings : ℕ → List ℕ) (num : ℕ) (format : List ℕ) (args : ℕ)
    (s : Screen)
    → va_word stack args ≡ num
    → (r : Screen → Option Screen)
    → ((s' : Screen) → printf buffer stack strings format (args + 4) s' ≡ r s')
    → printf buffer stack strings (b'%' ∷ (b'd' ∷ format)) args s
      ≡ elim (put_int buffer num s) [ none ↦ none | some s' ↦ r s' ]
unfolding convert printf
printf-decimal buffer stack strings num format args s e r rest =
    elim (Option-cases (put_int buffer num s)) [
      | inl failed ↦
          let c : convert buffer stack strings b'd' args s ≡ none = rw (e, failed, convert) refl in
          rw (c, failed, printf) refl
      | inr (s', shows) ↦
          let c : convert buffer stack strings b'd' args s ≡ some (args + 4, s') =
            rw (e, shows, convert) refl in
          printf-converts buffer stack strings b'd' format args (args + 4) s s' c
          ∙ rest s'
          ∙ rw shows refl
    ]

-- `printf` of a format made of such pieces, with the arguments as a caller pushes them and none after that
-- of a %c, shows the pieces in order, each with its own argument, and fails exactly where one of the
-- numbers cannot be printed.
pub printf-shown :
    (buffer stack : ℕ → ℕ) (strings : ℕ → List ℕ) (ps : List Piece) (args : ℕ) (s : Screen)
    → Pushed stack args ps
    → printf buffer stack strings (format_of ps) args s ≡ shown buffer strings ps s
unfolding printf convert
printf-shown buffer stack strings [] args s pushed = refl
printf-shown buffer stack strings (plain c ∷ ps) args s (other, pushed) =
    printf-plain buffer stack strings c (format_of ps) args s other
    ∙ printf-shown buffer stack strings ps args (put_char c s) pushed
printf-shown buffer stack strings (text address ∷ ps) args s (e, pushed) = rw (← e) (
    printf-shown buffer stack strings ps (args + 4) (put_string (strings (va_word stack args)) s)
      pushed)
printf-shown buffer stack strings (decimal num ∷ ps) args s (e, pushed) =
    printf-decimal buffer stack strings num (format_of ps) args s e
      (λ s'. shown buffer strings ps s')
      (λ s'. printf-shown buffer stack strings ps (args + 4) s' pushed)
printf-shown buffer stack strings (pointer addr ∷ ps) args s (e, pushed) = rw (← e) (
    printf-shown buffer stack strings ps (args + 4)
      (put_addr buffer (va_word stack args) (put_string (codes "0x") s)) pushed)
printf-shown buffer stack strings (hexadecimal num ∷ ps) args s (e, pushed) = rw (← e) (
    printf-shown buffer stack strings ps (args + 4)
      (put_hexa buffer (va_word stack args) (put_string (codes "0x") s)) pushed)
printf-shown buffer stack strings (letter c ∷ ps) args s (e, pushed) = rw (← e) (
    printf-shown buffer stack strings ps (args + 1) (put_char (stack args) s)
      (NoArguments-Pushed stack (args + 1) ps pushed))
printf-shown buffer stack strings (truth b ∷ ps) args s (e, pushed) = rw (← e) (
    printf-shown buffer stack strings ps (args + 4)
      (put_bool (if va_word stack args == 0 then false else true) s) pushed)
printf-shown buffer stack strings (percent ∷ ps) args s pushed =
    printf-shown buffer stack strings ps args (put_char b'%' s) pushed

-- ===== src/Protocol/Reader/Lines.antt =====
-- A whole line against a description that knows no buffer: the characters that remain once
-- comments, blanks and '/' are taken out and letters are in upper case.
use zephyr_grbl.Prelude.{
  ltb, leb, ◌==◌, if◌then◌else◌, ltb-false→le, Bool-cases, length, take, length-append, length-take,
  ℕ, zero, suc, ◌-◌, ◌≤◌, ◌<◌, ◌≡◌, refl, sym, ap, inl, inr, Bool, true, false, not, ◌||◌, List, [],
  ◌∷◌, ◌++◌, append-nil, append_assoc, arith,
}
use zephyr_grbl.Flags.{Byte, zero_byte, ◌bor◌, bit_istrue}
use zephyr_grbl.System.{State, alarm, jog, state_in, state_bits}
use zephyr_grbl.Protocol.Reader.{
  Reader, line_buffer_size, line_flag_overflow, line_flag_comment_parentheses,
  line_flag_comment_semicolon, empty_reader, upcase, read_char, read_chars, end_line,
  status_overflow, status_ok, status_system_gc_lock, system_line, gcode_line, first_char,
}

-- The visible characters of a line; the flag says whether the text is inside parentheses. After
-- ';' nothing is visible.
unfoldable pub visible : Bool → List ℕ → List ℕ
visible inside [] = []
visible true (c ∷ cs) = visible (not (c == b')')) cs
visible false (c ∷ cs) = elim (c == b';') [
  | true ↦ []
  | false ↦ elim (leb c b' ' || (c == b'/' || c == b'(')) [
    | true ↦ visible (c == b'(') cs
    | false ↦ upcase c ∷ visible false cs
  ]
]

abbrev overflowed : Reader → Bool
overflowed r = bit_istrue r.line_flags line_flag_overflow

abbrev full : ℕ
full = line_buffer_size - 1

abbrev in_mode : Byte → List ℕ → Reader
in_mode flags l = record { line = l; line_flags = flags }

read_char-semicolon :
    (c : ℕ) (l : List ℕ)
    → read_char c (in_mode line_flag_comment_semicolon l) ≡ in_mode line_flag_comment_semicolon l
unfolding read_char
read_char-semicolon c l = ground arith

read_char-overflow :
    (c : ℕ) (l : List ℕ) → read_char c (in_mode line_flag_overflow l) ≡ in_mode line_flag_overflow l
unfolding read_char
read_char-overflow c l = ground arith

read_char-parentheses :
    (c : ℕ) (l : List ℕ)
    → read_char c (in_mode line_flag_comment_parentheses l)
      ≡ in_mode (if c == b')' then zero_byte else line_flag_comment_parentheses) l
unfolding read_char
read_char-parentheses c l = ground arith

read_char-to_semicolon :
    (c : ℕ) (l : List ℕ)
    → (c == b';') ≡ true
    → read_char c (in_mode zero_byte l) ≡ in_mode line_flag_comment_semicolon l
unfolding read_char
read_char-to_semicolon c l h = ground arith

-- The mode between two bytes.
abbrev mode : Bool → Byte
mode true = line_flag_comment_parentheses
mode false = zero_byte

read_char-skip :
    (c : ℕ) (l : List ℕ)
    → (c == b';') ≡ false
    → (leb c b' ' || (c == b'/' || c == b'(')) ≡ true
    → read_char c (in_mode zero_byte l) ≡ in_mode (mode (c == b'(')) l
unfolding read_char
read_char-skip c l h k = ground arith

read_char-to_overflow :
    (c : ℕ) (l : List ℕ)
    → (c == b';') ≡ false
    → (leb c b' ' || (c == b'/' || c == b'(')) ≡ false
    → leb full (length l) ≡ true
    → read_char c (in_mode zero_byte l) ≡ in_mode line_flag_overflow l
unfolding read_char
read_char-to_overflow c l h k f = ground arith

read_char-keep :
    (c : ℕ) (l : List ℕ)
    → (c == b';') ≡ false
    → (leb c b' ' || (c == b'/' || c == b'(')) ≡ false
    → leb full (length l) ≡ false
    → read_char c (in_mode zero_byte l) ≡ in_mode zero_byte (l ++ (upcase c ∷ []))
unfolding read_char
read_char-keep c l h k f = ground arith

read_chars-semicolon :
    (cs l : List ℕ)
    → read_chars cs (in_mode line_flag_comment_semicolon l) ≡ in_mode line_flag_comment_semicolon l
unfolding read_chars
read_chars-semicolon [] l = refl
read_chars-semicolon (c ∷ cs) l = rw (read_char-semicolon c l) (read_chars-semicolon cs l)

read_chars-overflow :
    (cs l : List ℕ) → read_chars cs (in_mode line_flag_overflow l) ≡ in_mode line_flag_overflow l
unfolding read_chars
read_chars-overflow [] l = refl
read_chars-overflow (c ∷ cs) l = rw (read_char-overflow c l) (read_chars-overflow cs l)

-- The reader holds the first 79 characters of `text`, and knows whether there were more.
record Holds (text : List ℕ) (r : Reader) : Type 0 where
  held : r.line ≡ take full text
  over : overflowed r ≡ ltb full (length text)

take-all : (n : ℕ) (xs : List ℕ) → length xs ≤ n → take n xs ≡ xs
take-all zero [] h = refl
take-all zero (x ∷ xs) h = absurd (omega arith)
take-all (suc n) [] h = refl
take-all (suc n) (x ∷ xs) h = ap (λ ys. x ∷ ys) (take-all n xs (omega arith))

take-append_full : (n : ℕ) (xs ys : List ℕ) → length xs ≡ n → take n (xs ++ ys) ≡ xs
take-append_full zero [] ys h = refl
take-append_full zero (x ∷ xs) ys h = absurd (omega arith)
take-append_full (suc n) [] ys h = absurd (omega arith)
take-append_full (suc n) (x ∷ xs) ys h = ap (λ zs. x ∷ zs) (take-append_full n xs ys (omega arith))

-- Nothing more is visible.
Holds-end :
    (l : List ℕ) (flags : Byte)
    → length l ≤ full
    → bit_istrue flags line_flag_overflow ≡ false
    → Holds (l ++ []) (in_mode flags l)
Holds-end l flags h f =
    rw (append-nil l) (record { held = sym (take-all full l h); over = ground arith })

Holds-overflow :
    (l more : List ℕ)
    → length l ≤ full
    → leb full (length l) ≡ true
    → 0 < length more
    → Holds (l ++ more) (in_mode line_flag_overflow l)
Holds-overflow l more h f p = record {
  held = sym (take-append_full full l more (ground arith));
  over = ground (arith, length-append l more);
}

read_chars-Holds :
    (cs l : List ℕ) (inside : Bool)
    → length l ≤ full
    → Holds (l ++ visible inside cs) (read_chars cs (in_mode (mode inside) l))
unfolding read_chars visible
read_chars-Holds [] l true h = Holds-end l _ h refl
read_chars-Holds [] l false h = Holds-end l _ h refl
read_chars-Holds (c ∷ cs) l true h = elim (Bool-cases (c == b')')) [
  | inl closing ↦ rw (read_char-parentheses c l, closing) (read_chars-Holds cs l false h)
  | inr inner ↦ rw (read_char-parentheses c l, inner) (read_chars-Holds cs l true h)
]
read_chars-Holds (c ∷ cs) l false h = elim (Bool-cases (c == b';')) [
  | inl semi ↦
      rw (semi, visible, read_char-to_semicolon c l semi, read_chars-semicolon cs l)
        (Holds-end l _ h refl)
  | inr text ↦ elim (Bool-cases (leb c b' ' || (c == b'/' || c == b'('))) [
    | inl skip ↦
        rw (text, skip, visible, read_char-skip c l text skip) (read_chars-Holds cs l (c == b'(') h)
    | inr keep ↦ elim (Bool-cases (leb full (length l))) [
      | inl no_room ↦
          rw
            (
              text,
              keep,
              visible,
              read_char-to_overflow c l text keep no_room,
              read_chars-overflow cs l,
            )
            (Holds-overflow l (upcase c ∷ visible false cs) h no_room (omega arith))
      | inr room ↦
          rw
            (
              text,
              keep,
              visible,
              read_char-keep c l text keep room,
              ← append_assoc l (upcase c ∷ []) (visible false cs),
            )
            (read_chars-Holds cs (l ++ (upcase c ∷ [])) false
              (ground (arith, length-append l (upcase c ∷ []))))
    ]
  ]
]

-- A line of bytes without '\n' and '\r', from the end of the line before: it overflows if and only
-- if more than 79 characters are visible, and is then reported and not executed, whatever its first
-- 79 characters say; else what is executed is exactly the visible text.
pub end_line-read_chars :
    (state : State) (cs : List ℕ)
    → end_line state (read_chars cs empty_reader) ≡ (
      if ltb full (length (visible false cs))
          then status_overflow
          else if first_char (visible false cs) == 0
          then status_ok
          else if first_char (visible false cs) == b'$'
          then system_line (visible false cs)
          else if state_in state (state_bits alarm bor state_bits jog)
          then status_system_gc_lock
          else gcode_line (visible false cs),
      empty_reader,
    )
unfolding end_line
end_line-read_chars state cs =
    let h = read_chars-Holds cs [] false (omega arith) in
    elim (Bool-cases (ltb full (length (visible false cs)))) [
      | inl more ↦ rw (h.over, more)
      | inr fits ↦ rw (
        h.over,
        fits,
        h.held,
        take-all full (visible false cs) (ltb-false→le full (length (visible false cs)) fits),
      )
    ]

-- The buffer of 80 bytes is never overrun: a line and its terminating 0 fit, whatever is received.
pub length-read_chars : (cs : List ℕ) → length (read_chars cs empty_reader).line < line_buffer_size
length-read_chars cs =
    let h = read_chars-Holds cs [] false (omega arith) in
    omega (arith, ap length h.held, length-take full (visible false cs))

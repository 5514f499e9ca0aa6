-- ===== src/Config/Text.antt =====
-- What internal/config uses of Go's strconv and net: decimal numbers and host:port addresses.
-- A string is the list of its bytes.
use ws_tunnel.Prelude.{
  ℕ, zero, suc, ◌+◌, ◌-◌, ◌*◌, ◌/◌, ◌%◌, ◌^◌, ◌<◌, ◌≡◌, refl, Bool, false, ◌&&◌, ◌||◌, Option, none,
  some, [], ◌∷◌, ◌++◌, arith, nat_beq, ltb, leb, if◌then◌else◌, Str, ap, ◌∙◌, inl, inr, Bool-cases,
  ltb→lt,
}
use ws_tunnel.Prelude.Int.{ℤ, pos, negsuc}

-- The value of decimal digits, read from the left onto `acc`.
unfoldable pub digits_value : ℕ → Str → Option ℕ
digits_value acc [] = some acc
digits_value acc (c ∷ s) =
    let rest = digits_value (acc * 10 + (c - 48)) s in if leb 48 c && leb c 57 then rest else none

abbrev pub negate : ℕ → ℤ
negate zero = pos 0
negate (suc n) = negsuc n

unfoldable pub unsigned_atoi : Str → Option ℕ
unsigned_atoi [] = none
unsigned_atoi (c ∷ s) = digits_value 0 (c ∷ s)

-- An `int` is of 64 bits.
unfoldable pub positive : Option ℕ → Option ℤ
positive none = none
positive (some n) = if ltb n (2 ^ 63) then some (pos n) else none

unfoldable pub negative : Option ℕ → Option ℤ
negative none = none
negative (some n) = if leb n (2 ^ 63) then some (negate n) else none

-- `strconv.Atoi`: an optional sign, at least one digit, nothing else, and the value in range.
unfoldable pub atoi : Str → Option ℤ
unfolding unsigned_atoi positive negative
atoi [] = none
atoi (c ∷ s) =
    if nat_beq c b'-'
    then negative (unsigned_atoi s)
    else if nat_beq c b'+'
    then positive (unsigned_atoi s)
    else positive (unsigned_atoi (c ∷ s))

-- The digits of a number below 10 ^ (fuel + 1).
unfoldable pub itoa_digits : ℕ → ℕ → Str
itoa_digits zero n = (n + 48) ∷ []
itoa_digits (suc fuel) n =
    let front = itoa_digits fuel (n / 10) in
    if ltb n 10 then (n + 48) ∷ [] else front ++ ((n % 10 + 48) ∷ [])

-- `strconv.Itoa` of an `int` that is not negative: 19 digits at most.
unfoldable pub itoa : ℕ → Str
itoa n = itoa_digits 18 n

abbrev pub has_byte : ℕ → Str → Bool
has_byte b [] = false
has_byte b (c ∷ s) = nat_beq c b || has_byte b s

-- What stands before and after the last byte `b`.
unfoldable pub split_last : ℕ → Str → Option (Str × Str)
split_last b [] = none
split_last b (c ∷ s) = elim (split_last b s) [
  | some (h, p) ↦ some (c ∷ h, p)
  | none ↦ if nat_beq c b then some ([], s) else none
]

-- The host in brackets: the first `]` is the last byte, and no `[` follows the first one.
unfoldable pub bracket_host : Str → Option Str
bracket_host [] = none
bracket_host (c ∷ []) = if nat_beq c b']' then some [] else none
bracket_host (c ∷ (d ∷ s)) =
    let rest = bracket_host (d ∷ s) in
    if nat_beq c b']' || nat_beq c b'['
    then none
    else elim rest [ none ↦ none | some h ↦ some (c ∷ h) ]

unfoldable pub split_host : Str → Str → Option (Str × Str)
unfolding bracket_host
split_host [] port = if has_byte b'[' port || has_byte b']' port then none else some ([], port)
split_host (c ∷ h) port =
    if has_byte b'[' port || has_byte b']' port
    then none
    else if nat_beq c b'['
    then (elim (bracket_host h) [ none ↦ none | some host ↦ some (host, port) ])
    else if has_byte b':' (c ∷ h) || has_byte b'[' (c ∷ h) || has_byte b']' (c ∷ h)
    then none
    else some (c ∷ h, port)

-- `net.SplitHostPort`.
unfoldable pub split_host_port : Str → Option (Str × Str)
unfolding split_last split_host
split_host_port s = elim (split_last b':' s) [
  | none ↦ none
  | some (host, port) ↦ split_host host port
]

digits_value-snoc :
    (acc v d : ℕ) (s : Str)
    → d < 10
    → digits_value acc s ≡ some v
    → digits_value acc (s ++ ((d + 48) ∷ [])) ≡ some (v * 10 + d)
unfolding digits_value
digits_value-snoc acc v d [] h e = ground arith
digits_value-snoc acc v d (c ∷ s) h e =
    ground (arith, digits_value-snoc (acc * 10 + (c - 48)) v d s)

digits_value-itoa_digits :
    (fuel n : ℕ) → n < 10 ^ suc fuel → digits_value 0 (itoa_digits fuel n) ≡ some n
unfolding digits_value itoa_digits
digits_value-itoa_digits zero n h = ground arith
digits_value-itoa_digits (suc fuel) n h = elim (Bool-cases (ltb n 10)) [
  | inl small ↦ rw small (ground (arith, ltb→lt n 10 small))
  | inr big ↦
      let ih = digits_value-itoa_digits fuel (n / 10) (ground arith) in
      rw big (
        digits_value-snoc 0 (n / 10) (n % 10) (itoa_digits fuel (n / 10)) (omega arith) ih
        ∙ ap some (omega arith))
]

atoi_of_digits :
    (s : Str) (n : ℕ)
    → n < 2 ^ 63
    → (s ≡ [] → ⊥)
    → digits_value 0 s ≡ some n
    → atoi s ≡ some (pos n)
unfolding atoi digits_value
atoi_of_digits [] n h ne e = absurd (ne refl)
atoi_of_digits (c ∷ s) n h ne e = ground arith

itoa_digits-ne-nil : (fuel n : ℕ) → itoa_digits fuel n ≡ [] → ⊥
unfolding itoa_digits
itoa_digits-ne-nil zero n e = cc
itoa_digits-ne-nil (suc fuel) n e =
    snoc-ne-nil (itoa_digits fuel (n / 10)) (n % 10 + 48) (ground arith)
  where
    snoc-ne-nil : (s : Str) (c : ℕ) → s ++ (c ∷ []) ≡ [] → ⊥
    snoc-ne-nil [] c e = cc
    snoc-ne-nil (x ∷ s) c e = cc

-- `strconv.Atoi` reads back what `strconv.Itoa` writes of an `int` that is not negative.
pub atoi-itoa : (n : ℕ) → n < 2 ^ 63 → atoi (itoa n) ≡ some (pos n)
unfolding itoa
atoi-itoa n h =
    atoi_of_digits (itoa_digits 18 n) n h (itoa_digits-ne-nil 18 n)
      (digits_value-itoa_digits 18 n (omega arith))

pub itoa-injective : (m n : ℕ) → m < 2 ^ 63 → n < 2 ^ 63 → itoa m ≡ itoa n → m ≡ n
itoa-injective m n hm hn e = cc (atoi-itoa m hm, atoi-itoa n hn)

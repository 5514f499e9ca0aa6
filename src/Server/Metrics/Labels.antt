-- ===== src/Server/Metrics/Labels.antt =====
-- The labels of /metrics can be read back.
use ws_tunnel.Prelude.{
  ℕ, ◌≡◌, refl, inl, inr, Bool, true, false, Option, none, some, [], ◌∷◌, ◌++◌, arith, nat_beq,
  if◌then◌else◌, Str, Bool-cases,
}
use ws_tunnel.Server.Metrics.{escape_label}

-- One more byte of a value.
abbrev then_byte : ℕ → Option (Str × Str) → Option (Str × Str)
then_byte b none = none
then_byte b (some (v, rest)) = some (b ∷ v, rest)

-- How the exposition format reads a label's value, up to the quote that closes it: a backslash
-- escapes a backslash, a quote or the `n` of a new line, and a line ends no value.
pub read_value : Bool → Str → Option (Str × Str)
read_value escaped [] = none
read_value false (b ∷ s) =
    let plain = read_value false s in
    let escaped = read_value true s in
    if nat_beq b 34
    then some ([], s)
    else if nat_beq b 92
    then escaped
    else if nat_beq b 10
    then none
    else then_byte b plain
read_value true (b ∷ s) =
    let plain = read_value false s in
    if nat_beq b 92
    then then_byte 92 plain
    else if nat_beq b 110
    then then_byte 10 plain
    else if nat_beq b 34
    then then_byte 34 plain
    else none

-- A label's value that was escaped and is followed by a quote is read back as it was, up to that
-- quote: no node name, not even one with quotes, backslashes or new lines, ends its label early
-- or reads as another name.
pub read_value-escape_label :
    (v rest : Str) → read_value false (escape_label v ++ (34 ∷ rest)) ≡ some (v, rest)
unfolding read_value escape_label
read_value-escape_label [] rest = refl
read_value-escape_label (b ∷ v) rest =
    let ih = read_value-escape_label v rest in
    elim (Bool-cases (nat_beq b 92)) [
      | inl e ↦ rw e (ground (arith, ih, e))
      | inr e ↦ elim (Bool-cases (nat_beq b 10)) [
        | inl f ↦ rw (e, f) (ground (arith, ih, f))
        | inr f ↦ elim (Bool-cases (nat_beq b 34)) [
          | inl g ↦ rw (e, f, g) (ground (arith, ih, g))
          | inr g ↦ rw (e, f, g) (ground (arith, ih, e, f, g))
        ]
      ]
    ]

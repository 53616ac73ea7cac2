-- ===== src/Agent/Firewall/RuleLine.antt =====
-- `ufwRuleLine`: the pattern `^\[\s*\d+\]\s+(\S+)` on a line, and what it captures.
use frp_panel.Prelude.{
  ℕ, ◌==◌, ◌≡◌, ◌≢◌, refl, ap, ◌∙◌, Bool, true, false, ◌&&◌, ◌||◌, not, Option, none, some, [], ◌∷◌,
  ◌++◌, if◌then◌else◌, leb, arith,
}
use frp_panel.Prelude.Text.{Bytes}

-- `\s`
unfoldable pub is_blank : ℕ → Bool
is_blank b = b == 32 || b == 9 || b == 10 || b == 12 || b == 13

unfoldable pub is_digit : ℕ → Bool
is_digit b = leb 48 b && leb b 57

unfoldable pub drop_while : (ℕ → Bool) → Bytes → Bytes
drop_while p [] = []
drop_while p (b ∷ bs) = if p b then drop_while p bs else b ∷ bs

unfoldable pub take_while : (ℕ → Bool) → Bytes → Bytes
take_while p [] = []
take_while p (b ∷ bs) = let rest = take_while p bs in if p b then b ∷ rest else []

abbrev starts : (ℕ → Bool) → Bytes → Bool
starts p [] = false
starts p (b ∷ bs) = p b

abbrev non_empty : Bytes → Option Bytes
non_empty [] = none
non_empty (b ∷ bs) = some (b ∷ bs)

-- `\s+(\S+)`
unfoldable pub match_spec : Bytes → Option Bytes
match_spec l =
    if starts is_blank l
    then non_empty (take_while (λ b. not (is_blank b)) (drop_while is_blank l))
    else none

-- `\]`, and the rest
unfoldable pub match_close : Bytes → Option Bytes
match_close [] = none
match_close (b ∷ l) = if b == 93 then match_spec l else none

-- `\d+`, and the rest
unfoldable pub match_index : Bytes → Option Bytes
match_index l = if starts is_digit l then match_close (drop_while is_digit l) else none

unfoldable pub rule_spec : Bytes → Option Bytes
rule_spec [] = none
rule_spec (b ∷ l) = if b == 91 then match_index (drop_while is_blank l) else none

-- Rows as ufw prints them: "[ 1] 8080/tcp    ALLOW IN    Anywhere    # comment".
pub record Row : Type 0 where
  pub pad : Bytes
  pub index : Bytes
  pub spec : Bytes
  -- what follows the spec, after a blank
  pub tail : Bytes

unfoldable pub row_line : Row → Bytes
row_line r = 91 ∷ (r.pad ++ (r.index ++ 93 ∷ 32 ∷ (r.spec ++ 32 ∷ r.tail)))

abbrev pub Each : (ℕ → Bool) → Bytes → Type 0
Each p [] = Unit {0}
Each p (b ∷ bs) = (p b ≡ true) × Each p bs

abbrev pub solid : ℕ → Bool
solid b = not (is_blank b)

pub record IsRow (r : Row) : Type 0 where
  pub padded : Each is_blank r.pad
  pub numbered : Each is_digit r.index
  pub some_index : r.index ≢ []
  pub solid_spec : Each solid r.spec
  pub some_spec : r.spec ≢ []

drop_while-append :
    (p : ℕ → Bool) (xs ys : Bytes) → Each p xs → drop_while p (xs ++ ys) ≡ drop_while p ys
unfolding drop_while
drop_while-append p [] ys h = refl
drop_while-append p (x ∷ xs) ys h = rw h.0 (drop_while-append p xs ys h.1)

drop_while-stop : (p : ℕ → Bool) (y : ℕ) (ys : Bytes) → p y ≡ false → drop_while p (y ∷ ys) ≡ y ∷ ys
unfolding drop_while
drop_while-stop p y ys e = rw e refl

take_while-append :
    (p : ℕ → Bool) (xs : Bytes) (y : ℕ) (ys : Bytes)
    → Each p xs
    → p y ≡ false
    → take_while p (xs ++ y ∷ ys) ≡ xs
unfolding take_while
take_while-append p [] y ys h e = rw e refl
take_while-append p (x ∷ xs) y ys h e =
    rw h.0 (ap (λ zs. x ∷ zs) (take_while-append p xs y ys h.1 e))

match_spec-spec :
    (spec tail : Bytes)
    → Each solid spec
    → spec ≢ []
    → match_spec (32 ∷ (spec ++ 32 ∷ tail)) ≡ some spec
unfolding match_spec drop_while is_blank
match_spec-spec [] tail h ne = absurd (ne refl)
match_spec-spec (b ∷ bs) tail h ne = ap non_empty (
    ap (take_while solid) (keep (is_blank b) refl)
    ∙ take_while-append solid (b ∷ bs) 32 tail h refl)
  where
    keep :
        (t : Bool)
        → is_blank b ≡ t
        → (if is_blank b then drop_while is_blank (bs ++ 32 ∷ tail) else b ∷ (bs ++ 32 ∷ tail))
          ≡ b ∷ (bs ++ 32 ∷ tail)
    keep true e = let h' = rw e at h.0 in cc
    keep false e = rw e refl

not_blank : (b : ℕ) → is_digit b ≡ true → is_blank b ≡ false
unfolding is_digit is_blank
not_blank b h = ground arith

match_index-index :
    (index rest : Bytes)
    → Each is_digit index
    → index ≢ []
    → match_index (index ++ 93 ∷ rest) ≡ match_spec rest
unfolding match_index match_close
match_index-index [] rest h ne = absurd (ne refl)
match_index-index (d ∷ ds) rest h ne = rw h.0 (
    ap match_close {y = 93 ∷ rest} (
      drop_while-append is_digit (d ∷ ds) (93 ∷ rest) h
      ∙ drop_while-stop is_digit 93 rest (unfold is_digit in refl)))

skip_pad :
    (pad index rest : Bytes)
    → Each is_blank pad
    → Each is_digit index
    → index ≢ []
    → drop_while is_blank (pad ++ (index ++ rest)) ≡ index ++ rest
skip_pad pad [] rest h d ne = absurd (ne refl)
skip_pad pad (i ∷ is) rest h d ne =
    drop_while-append is_blank pad ((i ∷ is) ++ rest) h
    ∙ drop_while-stop is_blank i (is ++ rest) (not_blank i d.0)

pub rule_spec-row_line : (r : Row) → IsRow r → rule_spec (row_line r) ≡ some r.spec
unfolding rule_spec row_line
rule_spec-row_line r h =
    ap match_index
      (skip_pad r.pad r.index (93 ∷ 32 ∷ (r.spec ++ 32 ∷ r.tail)) h.padded h.numbered h.some_index)
    ∙ match_index-index r.index (32 ∷ (r.spec ++ 32 ∷ r.tail)) h.numbered h.some_index
    ∙ match_spec-spec r.spec r.tail h.solid_spec h.some_spec

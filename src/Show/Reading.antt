-- ===== src/Show/Reading.antt =====
-- The text of a class, read back.
use alpaca_vrr.Base.{
  take, drop, ℕ, zero, suc, ◌<◌, ◌≡◌, refl, List, [], ◌∷◌, ◌++◌, arith, length, map, All, ◌^◌,
}
use alpaca_vrr.Pset.{PsetEntry}
use alpaca_vrr.Show.{hex, pset_line}
use alpaca_vrr.Show.Writes.{unhex, unhex-hex}
use alpaca_vrr.Show.Lines.{entry_lines}
use mathlib.Core.List.{append_assoc}

-- The number that stands in so many digits at an offset.
abbrev pub field : ℕ → ℕ → List ℕ → ℕ
field at n line = unhex 0 (take n (drop at line))

unfoldable pub read_line : List ℕ → ℕ × List ℕ
read_line line = (
  field 0 8 line,
  field 9 2 line
      ∷ field 12 2 line
      ∷ field 15 2 line
      ∷ field 18 2 line
      ∷ field 21 2 line
      ∷ field 24 2 line
      ∷ [],
)

unfoldable pub read_lines : ℕ → List ℕ → List (ℕ × List ℕ)
read_lines zero text = []
read_lines (suc n) text = read_line text ∷ read_lines n (drop 27 text)

-- The identifier is a 32-bit word, and the address six bytes.
abbrev pub IsProper : PsetEntry → Type 0
IsProper e = (e.node < 2 ^ 32) × (length e.mac ≡ 6) × All (λ b. b < 2 ^ 8) e.mac

fields :
    (id : ℕ) (mac rest : List ℕ)
    → id < 2 ^ 32
    → length mac ≡ 6
    → All (λ b. b < 2 ^ 8) mac
    → read_line (pset_line id mac ++ rest) ≡ (id, mac)
unfolding read_line pset_line hex
fields id [] rest i l h = absurd (omega arith)
fields id (a ∷ []) rest i l h = absurd (omega arith)
fields id (a ∷ b ∷ []) rest i l h = absurd (omega arith)
fields id (a ∷ b ∷ c ∷ []) rest i l h = absurd (omega arith)
fields id (a ∷ b ∷ c ∷ d ∷ []) rest i l h = absurd (omega arith)
fields id (a ∷ b ∷ c ∷ d ∷ e ∷ []) rest i l h = absurd (omega arith)
fields id (a ∷ b ∷ c ∷ d ∷ e ∷ f ∷ g ∷ m) rest i l h = absurd (omega arith)
fields id (a ∷ b ∷ c ∷ d ∷ e ∷ f ∷ []) rest i l h =
    rw
      (
        unhex-hex 8 id i,
        unhex-hex 2 a h.0,
        unhex-hex 2 b h.1.0,
        unhex-hex 2 c h.1.1.0,
        unhex-hex 2 d h.1.1.1.0,
        unhex-hex 2 e h.1.1.1.1.0,
        unhex-hex 2 f h.1.1.1.1.1.0,
      )
      refl

skipped : (id : ℕ) (mac rest : List ℕ) → drop 27 (pset_line id mac ++ rest) ≡ rest
unfolding pset_line hex
skipped id mac rest = refl

-- From the text of the entries, whatever follows it, their identifiers and addresses can be read
-- back, if each identifier is a 32-bit word and each address has six bytes.
pub entry_lines-read :
    (es : List PsetEntry) (rest : List ℕ)
    → All IsProper es
    → read_lines (length es) (entry_lines es ++ rest) ≡ map (λ e. (e.node, e.mac)) es
unfolding read_lines entry_lines
entry_lines-read [] rest h = refl
entry_lines-read (e ∷ es) rest h = rw (
  append_assoc (pset_line e.node e.mac) (entry_lines es) rest,
  fields e.node e.mac (entry_lines es ++ rest) h.0.0 h.0.1 h.0.2,
  skipped e.node e.mac (entry_lines es ++ rest),
  entry_lines-read es rest h.1,
)

-- ===== src/MediaGroup/Longest.antt =====
-- The group with the longest pattern in common with a title.
use mathlib.Core.List.{Memᴰ}
use mathlib.Core.Logic.{◌⊎◌}
use medialibrary.Common.{
  ℕ, ◌≡◌, ◌≤◌, ◌<◌, refl, sym, ap, subst, Option, none, some, List, [], ◌∷◌, arith, if-given, inl,
  inr, All, Bytes, length, ltb,
}
use medialibrary.MediaGroup.{Group}
use medialibrary.MediaGroup.Naming.{group_pattern, longest_match}

-- A pattern of the row that is not empty.
abbrev pub IsPattern : Bytes → ℕ × Group → Bytes → Type 0
IsPattern title r longest = (group_pattern r.1.name title ≡ longest) × (0 < length longest)

-- The result of the loop: what it was given, or one of the rows with its pattern.
abbrev pub IsChosen :
    Bytes → List (ℕ × Group) → Option (ℕ × Group) × Bytes → Option (ℕ × Group) × Bytes → Type 0
IsChosen title rows given res =
    (res ≡ given) ⊎ ((r : ℕ × Group) × Memᴰ r rows × (res.0 ≡ some r) × IsPattern title r res.1)

-- Its pattern is as long as the one that was given, and as those of the rows.
abbrev pub IsLongest : Bytes → List (ℕ × Group) → Bytes → Option (ℕ × Group) × Bytes → Type 0
IsLongest title rows given res =
    (length given ≤ length res.1)
    × All (λ r. length (group_pattern r.1.name title) ≤ length res.1) rows

longest_match-cons :
    (P : Option (ℕ × Group) × Bytes → Type 0) (title : Bytes) (r : ℕ × Group)
    (rows : List (ℕ × Group)) (target : Option (ℕ × Group)) (longest : Bytes)
    → ((length longest < length (group_pattern r.1.name title))
        → P (longest_match title rows (some r) (group_pattern r.1.name title)))
    → ((length (group_pattern r.1.name title) ≤ length longest)
        → P (longest_match title rows target longest))
    → P (longest_match title (r ∷ rows) target longest)
unfolding longest_match
longest_match-cons P title r rows target longest taken kept =
    if-given P (ltb (length longest) (length (group_pattern r.1.name title)))
      (longest_match title rows (some r) (group_pattern r.1.name title))
      (longest_match title rows target longest) (λ e. taken (ground (arith, e)))
      (λ e. kept (ground (arith, e)))

longest_match-IsLongest :
    (title : Bytes) (rows : List (ℕ × Group)) (target : Option (ℕ × Group)) (longest : Bytes)
    → IsLongest title rows longest (longest_match title rows target longest)
unfolding longest_match
longest_match-IsLongest title [] target longest = (omega arith, tt)
longest_match-IsLongest title (r ∷ rows) target longest =
    let pattern = group_pattern r.1.name title in
    longest_match-cons (IsLongest title (r ∷ rows) longest) title r rows target longest
      (λ e.
        let (least, others) = longest_match-IsLongest title rows (some r) pattern in
        (omega (arith, e, least), (least, others)))
      (λ e.
        let (least, others) = longest_match-IsLongest title rows target longest in
        (least, (omega (arith, e, least), others)))

pub longest_match-IsChosen :
    (title : Bytes) (rows : List (ℕ × Group)) (target : Option (ℕ × Group)) (longest : Bytes)
    → IsChosen title rows (target, longest) (longest_match title rows target longest)
unfolding longest_match
longest_match-IsChosen title [] target longest = inl refl
longest_match-IsChosen title (r ∷ rows) target longest =
    let pattern = group_pattern r.1.name title in
    longest_match-cons (IsChosen title (r ∷ rows) (target, longest)) title r rows target longest
      (λ e. elim (longest_match-IsChosen title rows (some r) pattern) [
        | inl same ↦ inr (
          r,
          Memᴰ.head refl,
          ap (λ x. x.0) same,
          (
            sym (ap (λ x. x.1) same),
            subst (λ (l : Bytes). 0 < length l) (sym (ap (λ x. x.1) same)) (omega (arith, e)),
          ),
        )
        | inr later ↦ inr (later.0, Memᴰ.tail later.1, later.2, later.3)
      ])
      (λ e. elim (longest_match-IsChosen title rows target longest) [
        | inl same ↦ inl same
        | inr later ↦ inr (later.0, Memᴰ.tail later.1, later.2, later.3)
      ])

-- Of any groups, the target is one whose name has a pattern in common with the title that is not empty,
-- and no shorter than that of any of them; there is no target only where all the patterns are empty.
pub longest_match_lem :
    (title : Bytes) (rows : List (ℕ × Group))
    → IsLongest title rows [] (longest_match title rows none [])
      × IsChosen title rows (none, []) (longest_match title rows none [])
longest_match_lem title rows =
    (longest_match-IsLongest title rows none [], longest_match-IsChosen title rows none [])

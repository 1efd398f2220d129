-- ===== src/MediaGroup/Assigned.antt =====
-- The assignment of a medium to a group by its title, from the groups that match to the counters.
use mathlib.Core.List.{Memᴰ}
use mathlib.Core.Option.{some-injective}
use mathlib.Core.Logic.{◌⊎◌}
use medialibrary.Common.{
  ◌<◌, ℕ, zero, suc, ◌==◌, ==-refl, ◌≡◌, ◌≤◌, refl, sym, ap, subst, ◌∙◌, Bool, true, false, Option,
  none, some, List, [], ◌∷◌, arith, Bool-cases, Option-cases, inl, inr, All, All-append, All-imp,
  keep, Bytes, length, ltb, drop,
}
use medialibrary.MediaGroup.{Medium, Group, Tables}
use medialibrary.MediaGroup.Sums.{nb}
use medialibrary.MediaGroup.Attributes.{IsCounted}
use medialibrary.MediaGroup.Naming.{
  group_pattern, is_matching, rows_up_to, fetch_matching, longest_match, create, new_group,
  join_target, assign_to, assign_to_group, prefix, article_size,
}
use medialibrary.MediaGroup.Longest.{longest_match-IsChosen, longest_match_lem}
use medialibrary.MediaGroup.Joined.{
  IsAssigned, target_id, set_group-IsCounted, add-IsAssigned, target_id, IsRow,
  join_target-IsAssigned, target_id, join_target-succeeds,
}

rows_up_to-IsRow : (n : ℕ) (groups : ℕ → Option Group) → All (IsRow groups) (rows_up_to n groups)
rows_up_to-IsRow zero groups = tt
rows_up_to-IsRow (suc n) groups = elim (Option-cases (groups (suc n))) [
  | inl e ↦ rw e (All-append (IsRow groups) (rows_up_to n groups) [] tt (rows_up_to-IsRow n groups))
  | inr (g, e) ↦ rw e (
      All-append (IsRow groups) (rows_up_to n groups) ((suc n, g) ∷ []) ((ground arith, e), tt)
        (rows_up_to-IsRow n groups))
]

All-keep :
    (P : ℕ × Group → Type 0) (p : ℕ × Group → Bool) (rows : List (ℕ × Group))
    → All P rows
    → All P (keep p rows)
All-keep P p [] a = tt
All-keep P p (r ∷ rows) a = elim (Bool-cases (p r)) [
  | inl e ↦ rw e (a.0, All-keep P p rows a.1)
  | inr e ↦ rw e (All-keep P p rows a.1)
]

fetch_matching-IsRow : (start : Bytes) (t : Tables) → All (IsRow t.groups) (fetch_matching start t)
unfolding fetch_matching
fetch_matching-IsRow start t = elim (Bool-cases (ltb (length start) 6)) [
  | inl e ↦ rw e tt
  | inr e ↦ rw e (
      All-keep (IsRow t.groups) (λ r. is_matching start r.1) (rows_up_to t.next_group t.groups)
        (rows_up_to-IsRow t.next_group t.groups))
]

All-at :
    (P : ℕ × Group → Type 0) (r : ℕ × Group) (rows : List (ℕ × Group))
    → Memᴰ r rows
    → All P rows
    → P r
All-at P r [] m a = elim m [ ]
All-at P r (x ∷ rows) (Memᴰ.head e) a = subst P (sym e) a.0
All-at P r (x ∷ rows) (Memᴰ.tail m) a = All-at P r rows m a.1

target-IsRow :
    (title : Bytes) (rows : List (ℕ × Group)) (groups : ℕ → Option Group)
    → All (IsRow groups) rows
    → (r : ℕ × Group) → (longest_match title rows none []).0 ≡ some r
    → IsRow groups r
target-IsRow title rows groups a r e = elim (longest_match-IsChosen title rows none []) [
  | inl same ↦ absurd (cc (sym (ap (λ x. x.0) same) ∙ e))
  | inr chosen ↦
      subst (IsRow groups) (some-injective chosen.0 r (sym chosen.2 ∙ e))
        (All-at (IsRow groups) chosen.0 rows chosen.1 a)
]

-- The new group where no row matches, and otherwise the one with the longest pattern.
abbrev pub group_for : Medium → List (ℕ × Group) → Tables → ℕ
group_for m [] t = t.next_group
group_for m (r ∷ rows) t = target_id (longest_match m.title (r ∷ rows) none []).0

assign_to-IsAssigned :
    (seen : Bool) (m : Medium) (rows : List (ℕ × Group)) (t : Tables)
    → t.groups t.next_group ≡ none
    → (t.next_group == 0) ≡ false
    → All (IsRow t.groups) rows
    → IsCounted seen t
    → IsAssigned seen m.id (group_for m rows t) (assign_to m rows t)
assign_to-IsAssigned seen m [] t fresh real a v =
    let title = drop (article_size m.title) m.title in
    let t' = create title t in
    add-IsAssigned seen t.next_group m.id t' (rw (real, ==-refl t.next_group) refl) (
      set_group-IsCounted seen t.next_group (some (new_group title)) t.media t.groups
        (λ k. ap (nb k) (sym fresh)) v)
assign_to-IsAssigned seen m (r ∷ rows) t fresh real a v =
    let (target, longest) = longest_match m.title (r ∷ rows) none [] in
    join_target-IsAssigned seen m.id target longest t (target-IsRow m.title (r ∷ rows) t.groups a) v

keep-passes : (p : ℕ × Group → Bool) (rows : List (ℕ × Group)) → All (λ r. p r ≡ true) (keep p rows)
keep-passes p [] = tt
keep-passes p (r ∷ rows) = elim (Bool-cases (p r)) [
  | inl e ↦ rw e (e, keep-passes p rows)
  | inr e ↦ rw e (keep-passes p rows)
]

matching-free :
    (start : Bytes) (g : Group) → is_matching start g ≡ true → g.forced_singleton ≡ false
matching-free start g e = elim (Bool-cases g.forced_singleton) [
  | inl f ↦ absurd (cc (rw f at e))
  | inr f ↦ f
]

fetch_matching-free :
    (start : Bytes) (t : Tables) → All (λ r. r.1.forced_singleton ≡ false) (fetch_matching start t)
unfolding fetch_matching
fetch_matching-free start t = elim (Bool-cases (ltb (length start) 6)) [
  | inl e ↦ rw e tt
  | inr e ↦
      let rows = rows_up_to t.next_group t.groups in
      rw e (
        All-imp (λ r. is_matching start r.1 ≡ true) (λ r. r.1.forced_singleton ≡ false)
          (keep (λ r. is_matching start r.1) rows) (λ r. matching-free start r.1)
          (keep-passes (λ r. is_matching start r.1) rows))
]

-- The assignment succeeds, or there are rows, and no name has a pattern in common with the title.
abbrev pub Succeeds : Medium → List (ℕ × Group) → Bool × Tables → Type 0
Succeeds m rows res =
    (res.0 ≡ true)
    ⊎ ((0 < length rows) × All (λ r. length (group_pattern r.1.name m.title) ≡ 0) rows)

assign_to-Succeeds :
    (m : Medium) (rows : List (ℕ × Group)) (t : Tables)
    → All (λ r. r.1.forced_singleton ≡ false) rows
    → Succeeds m rows (assign_to m rows t)
assign_to-Succeeds m [] t a = inl refl
assign_to-Succeeds m (r ∷ rows) t a =
    let best = longest_match m.title (r ∷ rows) none [] in
    let (longest, chosen) = longest_match_lem m.title (r ∷ rows) in
    elim chosen [
      | inl none_chosen ↦ inr (
        omega arith,
        All-imp (λ q. length (group_pattern q.1.name m.title) ≤ length best.1)
            (λ q. length (group_pattern q.1.name m.title) ≡ 0) (r ∷ rows)
            (λ q short. omega (arith, short, ap (λ b. length b.1) none_chosen)) longest.1,
      )
      | inr (q, member, same, (_, more)) ↦
          let free = All-at (λ q. q.1.forced_singleton ≡ false) q (r ∷ rows) member a in
          inl (
            ap (λ o. (join_target m.id (o, best.1) t).0) same
            ∙ join_target-succeeds m.id q best.1 t more free)
    ]

-- If the counters of the groups are right, and the identifier of the next group is not in use, a medium
-- that is assigned to a group leaves all counters right. The assignment succeeds, and the medium, if it
-- is in the table, is in a group that is there: a new one where no group matches, and otherwise the one
-- with the longest pattern in common with the title. Or there are groups that match, and none has a
-- pattern in common with it.
pub assign_to_group_lem :
    (seen : Bool) (m : Medium) (t : Tables)
    → t.groups t.next_group ≡ none
    → (t.next_group == 0) ≡ false
    → IsCounted seen t
    → IsAssigned seen m.id (group_for m (fetch_matching (prefix m.title) t) t) (assign_to_group m t)
      × Succeeds m (fetch_matching (prefix m.title) t) (assign_to_group m t)
unfolding assign_to_group
assign_to_group_lem seen m t fresh real v =
    let rows = fetch_matching (prefix m.title) t in
    (
      assign_to-IsAssigned seen m rows t fresh real (fetch_matching-IsRow (prefix m.title) t) v,
      assign_to-Succeeds m rows t (fetch_matching-free (prefix m.title) t),
    )

-- ===== src/MediaGroup/Joined.antt =====
-- A medium that is added to a group, which may be renamed before: the counters, and the group that the
-- medium has.
use mathlib.Core.Option.{some-injective}
use medialibrary.Common.{
  ◌&&◌, ℕ, ◌==◌, ==_iff, ==-refl, ◌≡◌, ◌<◌, refl, sym, ap, ◌∙◌, Bool, true, false, not, ◌||◌,
  Option, none, some, List, [], ◌∷◌, arith, Bool-cases, Option-cases, if-given, inl, inr, Bytes,
  length, bytes_eq, if◌then◌else◌,
}
use medialibrary.MediaGroup.{
  Medium, Group, Counter, Tables, lookup_medium, without, replace, update_medium, set_group,
}
use medialibrary.MediaGroup.Sums.{nb, total-without}
use medialibrary.MediaGroup.Steps.{IsCountedBy}
use medialibrary.MediaGroup.Attributes.{IsCounted, find_row}
use medialibrary.MediaGroup.Requests.{has_group, found_so, regroup-IsCounted}
use medialibrary.MediaGroup.Naming.{rename, add, join_target}

-- A row in place of one with the same counters.
pub set_group-IsCounted :
    (seen : Bool) (id : ℕ) (o : Option Group) (media : List Medium) (groups : ℕ → Option Group)
    → ((k : Counter) → nb k o ≡ nb k (groups id))
    → IsCountedBy seen media groups
    → IsCountedBy seen media (set_group id o groups)
set_group-IsCounted seen id o media groups same v k g tracked real = elim (Bool-cases (g == id)) [
  | inl e ↦ rw e (same k ∙ ap (λ h. nb k (groups h)) (sym ((==_iff g id).0 e)) ∙ v k g tracked real)
  | inr n ↦ rw n (v k g tracked real)
]

lookup-replace :
    (id : ℕ) (f : Medium → Medium) (old : Medium) (media : List Medium)
    → ((m : Medium) → (f m).id ≡ m.id)
    → lookup_medium id media ≡ some old
    → lookup_medium id (replace id (f old) media) ≡ some (f old)
lookup-replace id f old [] same e = cc
lookup-replace id f old (m ∷ media) same e = elim (Bool-cases (m.id == id)) [
  | inl s ↦
      let same_medium : m ≡ old = some-injective m old (rw s at e) in
      let found : ((f old).id == id) ≡ true =
        ap (λ i. i == id) (same old) ∙ ap (λ (x : Medium). x.id == id) (sym same_medium) ∙ s in
      rw (s, found) refl
  | inr s ↦ rw (s, s) (lookup-replace id f old media same (rw s at e))
]

found-has_group :
    (seen : Bool) (id : ℕ) (m : Medium) (t : Tables)
    → IsCounted seen t
    → lookup_medium id t.media ≡ some m
    → (m.group == 0) ≡ false
    → has_group m.group t ≡ true
found-has_group seen id m t v e z =
    let row =
      find_row seen m (without id t.media) t.groups
        (λ c h r w. v c h r w ∙ total-without c h id m t.media e) in
    rw (z, row.1 z) refl

-- The medium, if it is in the table, is in the group, and the group is there.
abbrev pub is_grouped : ℕ → ℕ → Tables → Bool
is_grouped id g t = found_so (λ m. m.group == g && has_group g t) (lookup_medium id t.media)

-- The counters are right, and the medium is in the group if the assignment succeeded.
abbrev pub IsAssigned : Bool → ℕ → ℕ → Bool × Tables → Type 0
IsAssigned seen id g (succeeded, t) =
    IsCounted seen t × ((not succeeded || is_grouped id g t) ≡ true)

abbrev pub target_id : Option (ℕ × Group) → ℕ
target_id none = 0
target_id (some r) = r.0

pub add-IsAssigned :
    (seen : Bool) (g id : ℕ) (t : Tables)
    → has_group g t ≡ true
    → IsCounted seen t
    → IsAssigned seen id g (true, add g id t)
unfolding add update_medium
add-IsAssigned seen g id t h v =
    let regroup : Medium → Medium = λ m. record m { group = g } in
    let t1 = update_medium id regroup t in
    let t2 = update_medium id regroup t1 in
    let once = regroup-IsCounted seen id g t h v in
    elim (Option-cases (lookup_medium id t.media)) [
      | inl e ↦ rw (e, e) (v, rw e refl)
      | inr (old, e) ↦
          let found : lookup_medium id t1.media ≡ some (regroup old) =
            rw e (lookup-replace id regroup old t.media (λ m. refl) e) in
          let there : has_group g t1 ≡ true =
            found-has_group seen id (regroup old) t1 once found (ground (arith, h)) in
          let twice = regroup-IsCounted seen id g t1 there once in
          let again : lookup_medium id t2.media ≡ some (regroup old) =
            rw found (lookup-replace id regroup (regroup old) t1.media (λ m. refl) found) in
          (
            twice,
            ap (found_so (λ m. m.group == g && has_group g t2)) again
                ∙ rw (==-refl g)
                    (found-has_group seen id (regroup old) t2 twice again (ground (arith, h))),
          )
    ]

-- The row is the one of its identifier, which is not 0.
abbrev pub IsRow : (ℕ → Option Group) → ℕ × Group → Type 0
IsRow groups r = ((r.0 == 0) ≡ false) × (groups r.0 ≡ some r.1)

row-has_group :
    (id : ℕ) (g : Group) (t : Tables)
    → (id == 0) ≡ false
    → t.groups id ≡ some g
    → has_group id t ≡ true
row-has_group id g t z e = rw (z, e) refl

-- The renaming keeps the counters, and the row.
rename-IsCounted :
    (seen : Bool) (id : ℕ) (g : Group) (name : Bytes) (t : Tables)
    → IsRow t.groups (id, g)
    → IsCounted seen t
    → IsCounted seen (rename id g name t).1 × (has_group id (rename id g name t).1 ≡ true)
rename-IsCounted seen id g [] t r v = (v, row-has_group id g t r.0 r.1)
rename-IsCounted seen id g (c ∷ cs) t r v =
    let name : Bytes = c ∷ cs in
    let row : Group = record g { name = name } in
    let t' : Tables = record t { groups = set_group id (some row) t.groups } in
    let P : Bool × Tables → Type 0 = λ p. IsCounted seen p.1 × (has_group id p.1 ≡ true) in
    let same : P (true, t) = (v, row-has_group id g t r.0 r.1) in
    if-given P g.forced_singleton (false, t)
      (if bytes_eq name g.name then (true, t) else (true, t')) (λ e. same)
      (λ e.
        if-given P (bytes_eq name g.name) (true, t) (true, t') (λ e. same)
          (λ e. (
            set_group-IsCounted seen id (some row) t.media t.groups (λ k. ap (nb k) (sym r.1)) v,
            row-has_group id row t' r.0 (rw (==-refl id) refl),
          )))

pub join_target-IsAssigned :
    (seen : Bool) (id : ℕ) (target : Option (ℕ × Group)) (longest : Bytes) (t : Tables)
    → ((r : ℕ × Group) → target ≡ some r → IsRow t.groups r)
    → IsCounted seen t
    → IsAssigned seen id (target_id target) (join_target id (target, longest) t)
join_target-IsAssigned seen id none longest t r v = (v, refl)
join_target-IsAssigned seen id (some (group, g)) longest t r v =
    let row = r (group, g) refl in
    let renamed = rename-IsCounted seen group g longest t row v in
    let t' = (rename group g longest t).1 in
    if-given (IsAssigned seen id group) g.user_interacted (true, add group id t)
      (if (rename group g longest t).0 then (true, add group id t') else (false, t'))
      (λ e. add-IsAssigned seen group id t (row-has_group group g t row.0 row.1) v)
      (λ e.
        if-given (IsAssigned seen id group) (rename group g longest t).0 (true, add group id t')
          (false, t') (λ e. add-IsAssigned seen group id t' renamed.1 renamed.0)
          (λ e. (renamed.0, refl)))

rename-succeeds :
    (id : ℕ) (g : Group) (name : Bytes) (t : Tables)
    → 0 < length name
    → g.forced_singleton ≡ false
    → (rename id g name t).0 ≡ true
rename-succeeds id g [] t l f = absurd (omega arith)
rename-succeeds id g (c ∷ cs) t l f = rw f (
    if-given (λ (p : Bool × Tables). p.0 ≡ true) (bytes_eq (c ∷ cs) g.name) (true, t) _ (λ e. refl)
      (λ e. refl))

pub join_target-succeeds :
    (id : ℕ) (r : ℕ × Group) (longest : Bytes) (t : Tables)
    → 0 < length longest
    → r.1.forced_singleton ≡ false
    → (join_target id (some r, longest) t).0 ≡ true
join_target-succeeds id (group, g) longest t l f =
    if-given (λ (p : Bool × Tables). p.0 ≡ true) g.user_interacted (true, add group id t) _
      (λ e. refl) (λ e. rw (rename-succeeds group g longest t l f) refl)

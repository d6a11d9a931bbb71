-- ===== src/Tree/Builder/MapLaws.antt =====
-- The builder's map of tree_builder.go: what it holds after a change, and its names as entries.
use git4go.Common.{
  [], bytes_equal_self, bytes_equal_sound, bytes_equal-both, if_swap, if_both, ℕ, ◌≡◌, refl, sym,
  ◌∙◌, subst, inl, inr, Bool, true, false, Option, none, some, List, ◌∷◌, if◌then◌else◌, Bool-cases,
  All, bytes_equal,
}
use git4go.Tree.Entries.{TreeEntry, entry_by_name}
use git4go.Tree.Builder.{tree_builder, EntryMap, map_set, map_delete, map_entries}
use git4go.Tree.Builder.RoundTrip.{IsEntry}

abbrev Distinct : EntryMap → Type 0
Distinct [] = Unit {0}
Distinct ((k, e) ∷ b) = All (λ p. bytes_equal k p.0 ≡ false) b × Distinct b

-- A builder's map: each entry stands under its name, each name once, and every entry fits a tree
-- object.
pub record IsBuilder (b : EntryMap) : Type 0 where
  pub keyed : All (λ p. p.1.name ≡ p.0) b
  pub distinct : Distinct b
  pub entries : All (λ p. IsEntry p.1) b

pub map_set-All :
    (P : List ℕ × TreeEntry → Type 0) (b : EntryMap) (key : List ℕ) (e : TreeEntry)
    → P (key, e)
    → All P b
    → All P (map_set b key e)
unfolding map_set
map_set-All P [] key e p h = (p, tt)
map_set-All P ((k, e') ∷ b) key e p h =
    if_both (All P) (bytes_equal k key) (p, h.1) (h.0, map_set-All P b key e p h.1)

pub map_delete-All :
    (P : List ℕ × TreeEntry → Type 0) (b : EntryMap) (key : List ℕ)
    → All P b
    → All P (map_delete b key)
unfolding map_delete
map_delete-All P [] key h = tt
map_delete-All P ((k, e) ∷ b) key h =
    if_both (All P) (bytes_equal k key) h.1 (h.0, map_delete-All P b key h.1)

pub map_set-Distinct :
    (b : EntryMap) (key : List ℕ) (e : TreeEntry) → Distinct b → Distinct (map_set b key e)
unfolding map_set
map_set-Distinct [] key e h = (tt, tt)
map_set-Distinct ((k, e') ∷ b) key e h = elim (Bool-cases (bytes_equal k key)) [
  | inl p ↦
      rw p
        (subst (λ t. All (λ q. bytes_equal t q.0 ≡ false) b) (bytes_equal_sound k key p) h.0, h.1)
  | inr p ↦ rw p (map_set-All _ b key e p h.0, map_set-Distinct b key e h.1)
]

pub map_delete-Distinct : (b : EntryMap) (key : List ℕ) → Distinct b → Distinct (map_delete b key)
unfolding map_delete
map_delete-Distinct [] key h = tt
map_delete-Distinct ((k, e) ∷ b) key h =
    if_both Distinct (bytes_equal k key) h.1
      (map_delete-All _ b key h.0, map_delete-Distinct b key h.1)

-- The entry of a name in the map.
pub map_get : EntryMap → List ℕ → Option TreeEntry
map_get [] n = none
map_get ((k, e) ∷ b) n = if bytes_equal k n then some e else map_get b n

pub map_get-tree_builder : (n : List ℕ) → map_get tree_builder n ≡ none
unfolding map_get
map_get-tree_builder n = refl

pub map_get-map_set :
    (b : EntryMap) (key : List ℕ) (e : TreeEntry) (n : List ℕ)
    → map_get (map_set b key e) n ≡ (if bytes_equal key n then some e else map_get b n)
unfolding map_get map_set
map_get-map_set [] key e n = refl
map_get-map_set ((k, e') ∷ b) key e n = elim (Bool-cases (bytes_equal k key)) [
  | inl p ↦ rw (p, bytes_equal_sound k key p) (again (bytes_equal key n))
  | inr p ↦
      rw (p, map_get-map_set b key e n)
        (if_swap (bytes_equal k n) (bytes_equal key n) (some e') (some e) (map_get b n)
          (bytes_equal-both k key n p))
]
  where
    again :
        (c : Bool)
        → (if c then some e else map_get b n)
          ≡ (if c then some e else if c then some e' else map_get b n)
    again true = refl
    again false = refl

map_get_absent :
    (b : EntryMap) (key : List ℕ) → All (λ p. bytes_equal key p.0 ≡ false) b → map_get b key ≡ none
unfolding map_get
map_get_absent [] key h = refl
map_get_absent ((k, e) ∷ b) key h = rw other (map_get_absent b key h.1)
  where
    other : bytes_equal k key ≡ false
    other = elim (Bool-cases (bytes_equal k key)) [
      | inr p ↦ p
      | inl p ↦ cc (
          sym (bytes_equal_self key)
          ∙ subst (λ t. bytes_equal key t ≡ false) (bytes_equal_sound k key p) h.0)
    ]

pub map_get-map_delete :
    (b : EntryMap) (key n : List ℕ)
    → Distinct b
    → map_get (map_delete b key) n ≡ (if bytes_equal key n then none else map_get b n)
unfolding map_get map_delete
map_get-map_delete [] key n h = same (bytes_equal key n)
  where
    same : (c : Bool) → ◌≡◌ {A = Option TreeEntry} none (if c then none else none)
    same true = refl
    same false = refl
map_get-map_delete ((k, e) ∷ b) key n h = elim (Bool-cases (bytes_equal k key)) [
  | inl p ↦ rw (p, bytes_equal_sound k key p) (removed (bytes_equal_sound k key p))
  | inr p ↦
      rw (p, map_get-map_delete b key n h.1)
        (if_swap (bytes_equal k n) (bytes_equal key n) (some e) none (map_get b n)
          (bytes_equal-both k key n p))
]
  where
    removed :
        k ≡ key
        → map_get b n
          ≡ (if bytes_equal key n then none else if bytes_equal key n then some e else map_get b n)
    removed same = elim (Bool-cases (bytes_equal key n)) [
      | inr q ↦ rw q refl
      | inl q ↦ rw q (
          map_get_absent b n (
            subst (λ t. All (λ p. bytes_equal t p.0 ≡ false) b) (same ∙ bytes_equal_sound key n q)
              h.0))
    ]

pub entry_by_name-map_entries :
    (b : EntryMap) (n : List ℕ)
    → All (λ p. p.1.name ≡ p.0) b
    → entry_by_name (map_entries b) n ≡ map_get b n
unfolding entry_by_name map_entries map_get
entry_by_name-map_entries [] n h = refl
entry_by_name-map_entries ((k, e) ∷ b) n h = rw (h.0, entry_by_name-map_entries b n h.1) refl

pub map_entries-All :
    (P : TreeEntry → Type 0) (b : EntryMap) → All (λ p. P p.1) b → All P (map_entries b)
unfolding map_entries
map_entries-All P [] h = tt
map_entries-All P ((k, e) ∷ b) h = (h.0, map_entries-All P b h.1)

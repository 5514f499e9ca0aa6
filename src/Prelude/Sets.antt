-- ===== src/Prelude/Sets.antt =====
-- Lists as sets: membership as a test, filtering and sorting.
use mathlib.Core.Path.{◌≡◌, refl, ap, sym}
use mathlib.Core.Bool.{Bool, true, false, ◌&&◌, ◌||◌}
use mathlib.Core.Option.{none, some}
use mathlib.Core.Logic.{inl, inr}
use mathlib.Core.List.{List, [], ◌∷◌, ◌++◌}
use Prim.Native.Nat.{suc}
use native.Mathlib.Omega.{arith}
use ws_tunnel.Prelude.Tests.{if◌then◌else◌, Eq, ◌==◌, is_some, Bool-cases}
use ws_tunnel.Prelude.Lists.{keep, length}
use ws_tunnel.Prelude.Dict.{lookup, insert, delete}

module _ {ℓ} {A : Type ℓ} ⦃e : Eq A⦄ where
  abbrev pub contains : A → List A → Bool
  contains a [] = false
  contains a (x ∷ xs) = x == a || contains a xs

  -- No element stands twice.
  abbrev pub Unique : List A → Type 0
  Unique [] = Unit {0}
  Unique (x ∷ xs) = (contains x xs ≡ false) × Unique xs

  pub contains-append :
      (a : A) (xs ys : List A) → contains a (xs ++ ys) ≡ (contains a xs || contains a ys)
  contains-append a [] ys = refl
  contains-append a (x ∷ xs) ys = ground (arith, contains-append a xs ys)

  pub contains-keep :
      (a : A) (p : A → Bool) (xs : List A) → contains a (keep p xs) ≡ (contains a xs && p a)
  contains-keep a p [] = refl
  contains-keep a p (x ∷ xs) = ground (arith, contains-keep a p xs, e.beq_iff x a)

  -- A filter that every element fails leaves nothing.
  pub keep-nil :
      (p : A → Bool) (xs : List A) → ((x : A) → contains x xs ≡ true → p x ≡ false) → keep p xs ≡ []
  keep-nil p [] h = refl
  keep-nil p (x ∷ xs) h =
      let rest = keep-nil p xs (λ y c. h y (ground arith)) in
      ground (arith, h x, e.beq_iff x x, rest)

  -- A new element at the end of a list without it.
  pub Unique-append :
      (a : A) (xs : List A) → contains a xs ≡ false → Unique xs → Unique (xs ++ (a ∷ []))
  Unique-append a [] h u = (refl, tt)
  Unique-append a (x ∷ xs) h u = (
    ground (arith, contains-append x xs (a ∷ []), e.beq_iff x a, e.beq_iff a x),
    Unique-append a xs (ground arith) u.1,
  )

  -- Insertion into a sorted list, and the sort by it: `sort.Ints`, `sort.Strings`.
  unfoldable pub insert_sorted : (A → A → Bool) → A → List A → List A
  insert_sorted le a [] = a ∷ []
  insert_sorted le a (x ∷ xs) =
      let rest = insert_sorted le a xs in if le a x then a ∷ (x ∷ xs) else x ∷ rest

  unfoldable pub sort : (A → A → Bool) → List A → List A
  sort le [] = []
  sort le (x ∷ xs) = insert_sorted le x (sort le xs)

  contains-insert_sorted :
      (le : A → A → Bool) (b a : A) (xs : List A)
      → contains b (insert_sorted le a xs) ≡ (a == b || contains b xs)
  unfolding insert_sorted
  contains-insert_sorted le b a [] = refl
  contains-insert_sorted le b a (x ∷ xs) = ground (arith, contains-insert_sorted le b a xs)

  pub contains-sort :
      (le : A → A → Bool) (b : A) (xs : List A) → contains b (sort le xs) ≡ contains b xs
  unfolding sort
  contains-sort le b [] = refl
  contains-sort le b (x ∷ xs) =
      ground (arith, contains-insert_sorted le b x (sort le xs), contains-sort le b xs)

module _ {ℓ κ} {K : Type ℓ} {V : Type κ} ⦃e : Eq K⦄ where
  -- The keys of a map.
  abbrev pub keys : List (K × V) → List K
  keys [] = []
  keys ((k, v) ∷ m) = k ∷ keys m

  pub contains-keys : (k : K) (m : List (K × V)) → contains k (keys m) ≡ is_some (lookup k m)
  unfolding lookup
  contains-keys k [] = refl
  contains-keys k ((j, v) ∷ m) = ground (arith, contains-keys k m)

  -- A fresh key joins a map at its end.
  pub keys-insert :
      (k : K) (v : V) (m : List (K × V))
      → lookup k m ≡ none
      → keys (insert k v m) ≡ keys m ++ (k ∷ [])
  unfolding lookup insert
  keys-insert k v [] h = refl
  keys-insert k v ((j, w) ∷ m) h = ground (arith, keys-insert k v m)

  pub keys-delete_absent :
      (k j : K) (m : List (K × V))
      → contains j (keys m) ≡ false
      → contains j (keys (delete k m)) ≡ false
  unfolding delete
  keys-delete_absent k j [] h = refl
  keys-delete_absent k j ((i, w) ∷ m) h = ground (arith, keys-delete_absent k j m)

  pub delete-Unique : (k : K) (m : List (K × V)) → Unique (keys m) → Unique (keys (delete k m))
  unfolding delete
  delete-Unique k [] u = tt
  delete-Unique k ((i, w) ∷ m) u = elim (Bool-cases (i == k)) [
    | inl h ↦ rw h (delete-Unique k m u.1)
    | inr h ↦ rw h (keys-delete_absent k i m u.0, delete-Unique k m u.1)
  ]

  delete_absent : (k : K) (m : List (K × V)) → contains k (keys m) ≡ false → delete k m ≡ m
  unfolding delete
  delete_absent k [] h = refl
  delete_absent k ((i, w) ∷ m) h = ground (arith, delete_absent k m)

  -- A map without one of its keys is one entry smaller.
  pub length-delete :
      (k : K) (v : V) (m : List (K × V))
      → Unique (keys m)
      → lookup k m ≡ some v
      → length m ≡ suc (length (delete k m))
  unfolding delete lookup
  length-delete k v [] u h = cc
  length-delete k v ((i, w) ∷ m) u h = elim (Bool-cases (i == k)) [
    | inl e' ↦
        rw e'
          (ap suc (ap length (sym (delete_absent k m (ground (arith, e.beq_iff i k, u.0, e'))))))
    | inr e' ↦ rw e' (ap suc (length-delete k v m u.1 (rw e' at h)))
  ]

  pub length-insert :
      (k : K) (v : V) (m : List (K × V))
      → lookup k m ≡ none
      → length (insert k v m) ≡ suc (length m)
  unfolding lookup insert
  length-insert k v [] h = refl
  length-insert k v ((i, w) ∷ m) h = ground (arith, length-insert k v m)

  contains-keys-insert :
      (k j : K) (v : V) (m : List (K × V))
      → contains j (keys (insert k v m)) ≡ (k == j || contains j (keys m))
  unfolding insert
  contains-keys-insert k j v [] = refl
  contains-keys-insert k j v ((i, w) ∷ m) =
      ground (arith, contains-keys-insert k j v m, e.beq_iff i k, e.beq_iff i j, e.beq_iff k j)

  pub insert-Unique :
      (k : K) (v : V) (m : List (K × V)) → Unique (keys m) → Unique (keys (insert k v m))
  unfolding insert
  insert-Unique k v [] u = (refl, tt)
  insert-Unique k v ((i, w) ∷ m) u = elim (Bool-cases (i == k)) [
    | inl h ↦ rw h (ground (arith, h, u.0, e.beq_iff i k), u.1)
    | inr h ↦ rw h (
      ground (arith, h, u.0, contains-keys-insert k i v m, e.beq_iff i k, e.beq_iff k i),
      insert-Unique k v m u.1,
    )
  ]

-- ===== src/Storage/Backend.antt =====
-- zendb-storage/src/backend/_traits.rs: what a key/value backend offers (`ReadBackend`, `WriteBackend`), the
-- methods that the traits define by the others, and the laws that an implementation promises.
pub mod Bulk
use zendb.Prelude.{
  ℕ, ◌+◌, Bool, true, false, Option, none, some, List, [], ◌∷◌, if◌then◌else◌, Ord, eqb, ◌≡◌,
  Result, ok, err, and_then,
}

-- The methods that an implementation gives. `B` is its state, `E` its errors.
pub record Backend (B K V E : Type 0) : Type 0 where
  pub get : B → K → Option V
  pub put : B → K → V → B × Result E (Unit {0})
  pub delete : B → K → B × Result E Bool

module _ {V : Type 0} where
  abbrev pub is_some : Option V → Bool
  is_some none = false
  is_some (some v) = true

module _ {B K V E : Type 0} (b : Backend B K V E) where
  unfoldable pub contains : B → K → Bool
  contains s key = is_some (b.get s key)

  unfoldable pub put_if_absent : B → K → V → B × Result E Bool
  unfolding contains
  put_if_absent s key value =
      if contains s key then (s, ok false) else and_then (b.put s key value) (λ s' u. (s', ok true))

  -- The previous value, if any.
  unfoldable pub replace : B → K → V → B × Result E (Option V)
  replace s key value = and_then (b.put s key value) (λ s' u. (s', ok (b.get s key)))

  unfoldable pub bulk_put : B → List (K × V) → B × Result E (Unit {0})
  bulk_put s [] = (s, ok tt)
  bulk_put s ((key, value) ∷ items) = and_then (b.put s key value) (λ s' u. bulk_put s' items)

  -- The loop of `bulk_delete`, with the number of the keys removed so far.
  unfoldable pub delete_keys : B → ℕ → List K → B × Result E ℕ
  delete_keys s removed [] = (s, ok removed)
  delete_keys s removed (key ∷ keys) =
      and_then (b.delete s key)
        (λ s' hit. delete_keys s' (if hit then removed + 1 else removed) keys)

  unfoldable pub bulk_delete : B → List K → B × Result E ℕ
  unfolding delete_keys
  bulk_delete s keys = delete_keys s 0 keys

  -- What `update` does with the current value and the new one.
  unfoldable pub store_update : B → K → Option V → Option V → B × Result E (Unit {0})
  store_update s key current (some value) = b.put s key value
  store_update s key (some old) none = and_then (b.delete s key) (λ s' hit. (s', ok tt))
  store_update s key none none = (s, ok tt)

  unfoldable pub update : B → K → (Option V → Option V) → B × Result E (Unit {0})
  unfolding store_update
  update s key f = store_update s key (b.get s key) (f (b.get s key))

module _ {B K V E : Type 0} ⦃k : Ord K⦄ where
  -- The backend is a map: what it holds under a key changes by a put or a delete of the key alone, and a
  -- delete reports whether it removed something.
  pub record IsMap (b : Backend B K V E) (IsValid : B → Type 0) : Type 0 where
    pub put_law :
        (s : B) (key : K) (v : V)
        → IsValid s
        → (b.put s key v).1 ≡ ok tt
        → IsValid (b.put s key v).0
          × ((q : K) → b.get (b.put s key v).0 q ≡ (if eqb q key then some v else b.get s q))
    pub delete_law :
        (s : B) (key : K) (hit : Bool)
        → IsValid s
        → (b.delete s key).1 ≡ ok hit
        → IsValid (b.delete s key).0
          × (hit ≡ is_some (b.get s key))
          × ((q : K) → b.get (b.delete s key).0 q ≡ (if eqb q key then none else b.get s q))

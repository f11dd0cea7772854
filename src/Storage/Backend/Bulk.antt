-- ===== src/Storage/Backend/Bulk.antt =====
-- The bulk methods of zendb-storage/src/backend/_traits.rs and `update`, on any backend that is a map.
use zendb.Prelude.{
  ℕ, ◌+◌, Bool, true, false, Option, none, some, List, [], ◌∷◌, if◌then◌else◌, Ord, eqb, eqb_iff,
  ◌≡◌, refl, ap, sym, fun_ext, ◌∙◌, arith, ok, err, Result-cases, Bool-cases, inl, inr, ◌||◌,
}
use zendb.Storage.Backend.{
  Backend, IsMap, is_some, bulk_put, delete_keys, bulk_delete, update, store_update,
}

module _ {K V : Type 0} ⦃k : Ord K⦄ where
  -- The last value that the items have for the key, or else the given one.
  abbrev pub last_value : K → List (K × V) → Option V → Option V
  last_value q [] v = v
  last_value q ((key, value) ∷ items) v = last_value q items (if eqb q key then some value else v)

  -- How many of the keys have a value, each key counted once.
  abbrev pub held : (K → Option V) → List K → ℕ
  held f [] = 0
  held f (key ∷ keys) =
      (if is_some (f key) then 1 else 0) + held (λ q. if eqb q key then none else f q) keys

module _ {K : Type 0} ⦃k : Ord K⦄ where
  abbrev pub is_among : K → List K → Bool
  is_among q [] = false
  is_among q (key ∷ keys) = eqb q key || is_among q keys

counted :
    (hit found : Bool) (removed n : ℕ)
    → hit ≡ found
    → (if hit then removed + 1 else removed) + n ≡ removed + ((if found then 1 else 0) + n)
counted hit found removed n e = ground (arith, e)

either :
    {V : Type 0} (a c : Bool) (v : Option V)
    → (if a then none else if c then none else v) ≡ (if c || a then none else v)
either true true v = refl
either true false v = refl
either false true v = refl
either false false v = refl

module _ {B K V E : Type 0} ⦃k : Ord K⦄ (b : Backend B K V E) (IsValid : B → Type 0)
    (laws : IsMap b IsValid) where
  bulk_put-ok :
      (s : B) (key : K) (v : V) (items : List (K × V))
      → (b.put s key v).1 ≡ ok tt
      → bulk_put b s ((key, v) ∷ items) ≡ bulk_put b (b.put s key v).0 items
  unfolding bulk_put
  bulk_put-ok s key v items e = rw (e, bulk_put) refl

  bulk_put-err :
      (s : B) (key : K) (v : V) (items : List (K × V)) (x : E)
      → (b.put s key v).1 ≡ err x
      → (bulk_put b s ((key, v) ∷ items)).1 ≡ err x
  unfolding bulk_put
  bulk_put-err s key v items x e = rw (e, bulk_put) refl

  -- On a backend that is a map (`IsMap`) and in a valid state: where a bulk put succeeds, the backend holds the last value of each key of the items, and what it held
  -- before under every other key.
  pub bulk_put-get :
      (items : List (K × V)) (s : B)
      → IsValid s
      → (bulk_put b s items).1 ≡ ok tt
      → IsValid (bulk_put b s items).0
        × ((q : K) → b.get (bulk_put b s items).0 q ≡ last_value q items (b.get s q))
  unfolding bulk_put
  bulk_put-get [] s valid e = (valid, λ q. refl)
  bulk_put-get ((key, v) ∷ items) s valid e = elim (Result-cases (b.put s key v).1) [
    | inr (x, failed) ↦ absurd (ground (arith, e, bulk_put-err s key v items x failed))
    | inl (u, stored) ↦
        let step = bulk_put-ok s key v items stored in
        let (valid', holds) = laws.put_law s key v valid stored in
        let (valid'', gets) =
          bulk_put-get items (b.put s key v).0 valid' (sym (ap (λ r. r.1) step) ∙ e) in
        rw step (valid'', λ q. gets q ∙ ap (last_value q items) (holds q))
  ]

  delete_keys-ok :
      (s : B) (removed : ℕ) (key : K) (keys : List K) (hit : Bool)
      → (b.delete s key).1 ≡ ok hit
      → delete_keys b s removed (key ∷ keys)
        ≡ delete_keys b (b.delete s key).0 (if hit then removed + 1 else removed) keys
  unfolding delete_keys
  delete_keys-ok s removed key keys hit e = rw (e, delete_keys) refl

  delete_keys-err :
      (s : B) (removed : ℕ) (key : K) (keys : List K) (x : E)
      → (b.delete s key).1 ≡ err x
      → (delete_keys b s removed (key ∷ keys)).1 ≡ err x
  unfolding delete_keys
  delete_keys-err s removed key keys x e = rw (e, delete_keys) refl

  delete_keys-get :
      (keys : List K) (s : B) (removed n : ℕ)
      → IsValid s
      → (delete_keys b s removed keys).1 ≡ ok n
      → IsValid (delete_keys b s removed keys).0
        × (n ≡ removed + held (b.get s) keys)
        × ((q : K)
            → b.get (delete_keys b s removed keys).0 q
              ≡ (if is_among q keys then none else b.get s q))
  unfolding delete_keys
  delete_keys-get [] s removed n valid e = (valid, ground (arith, e), λ q. refl)
  delete_keys-get (key ∷ keys) s removed n valid e = elim (Result-cases (b.delete s key).1) [
    | inr (x, failed) ↦ absurd (ground (arith, e, delete_keys-err s removed key keys x failed))
    | inl (hit, done) ↦
        let step = delete_keys-ok s removed key keys hit done in
        let (valid', reports, gets) = laws.delete_law s key hit valid done in
        let (valid'', counts, rest) =
          delete_keys-get keys (b.delete s key).0 (if hit then removed + 1 else removed) n valid'
            (sym (ap (λ r. r.1) step) ∙ e) in
        rw step (
          valid'',
          counts
              ∙ ap (λ f. (if hit then removed + 1 else removed) + held f keys) (fun_ext gets)
              ∙ counted hit (is_some (b.get s key)) removed _ reports,
          λ q.
              rest q
              ∙ ap (λ v. if is_among q keys then none else v) (gets q)
              ∙ either (is_among q keys) (eqb q key) (b.get s q),
        )
  ]

  -- On a backend that is a map (`IsMap`) and in a valid state: where a bulk delete succeeds, the backend holds nothing under the given keys and what it held before
  -- under every other; the result is the number of the keys that were held, each counted once.
  pub bulk_delete-get :
      (keys : List K) (s : B) (n : ℕ)
      → IsValid s
      → (bulk_delete b s keys).1 ≡ ok n
      → IsValid (bulk_delete b s keys).0
        × (n ≡ held (b.get s) keys)
        × ((q : K)
            → b.get (bulk_delete b s keys).0 q ≡ (if is_among q keys then none else b.get s q))
  unfolding bulk_delete
  bulk_delete-get keys s n valid e =
      let (valid', count, gets) = delete_keys-get keys s 0 n valid e in
      (valid', count ∙ omega arith, gets)

  absent :
      (s : B) (key q : K) → b.get s key ≡ none → b.get s q ≡ (if eqb q key then none else b.get s q)
  absent s key q e = elim (Bool-cases (eqb q key)) [
    | inl same ↦ rw same (ap (b.get s) ((eqb_iff q key).0 same) ∙ e)
    | inr other ↦ rw other refl
  ]

  store_update-err :
      (s : B) (key : K) (old : V) (x : E)
      → (b.delete s key).1 ≡ err x
      → (store_update b s key (some old) none).1 ≡ err x
  unfolding store_update
  store_update-err s key old x e = rw (e, store_update) refl

  store_update-get :
      (s : B) (key : K) (current new : Option V)
      → IsValid s
      → b.get s key ≡ current
      → (store_update b s key current new).1 ≡ ok tt
      → IsValid (store_update b s key current new).0
        × ((q : K)
            → b.get (store_update b s key current new).0 q ≡ (if eqb q key then new else b.get s q))
  unfolding store_update
  store_update-get s key current (some value) valid here e = laws.put_law s key value valid e
  store_update-get s key none none valid here e = (valid, λ q. absent s key q here)
  store_update-get s key (some old) none valid here e = elim (Result-cases (b.delete s key).1) [
    | inr (x, failed) ↦ absurd (ground (arith, e, store_update-err s key old x failed))
    | inl (hit, done) ↦
        let (valid', reports, gets) = laws.delete_law s key hit valid done in
        rw (done, store_update) (valid', gets)
  ]

  -- On a backend that is a map and in a valid state, an update that succeeds gives the closure the value of the key, stores what it returns or deletes the
  -- key, and changes no other key.
  pub backend_update-get :
      (s : B) (key : K) (f : Option V → Option V)
      → IsValid s
      → (update b s key f).1 ≡ ok tt
      → IsValid (update b s key f).0
        × ((q : K)
            → b.get (update b s key f).0 q ≡ (if eqb q key then f (b.get s key) else b.get s q))
  unfolding update
  backend_update-get s key f valid e =
      store_update-get s key (b.get s key) (f (b.get s key)) valid refl e

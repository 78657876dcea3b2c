-- ===== src/Access/Resolve/Handles.antt =====
-- The handles that are open, and the entries of the cache that have them.
use go_ads.Common.{
  ℕ, ◌+◌, ◌≡◌, ◌<◌, refl, sym, ap, ◌∙◌, true, false, ◌==◌, Bytes, Option, none, some, arith, ◌⊎◌,
  inl, inr, Bool-cases,
}
use go_ads.Common.Dict.{
  Dict, Bytes-Key, ℕ-Key, eq_text, eq_text→≡, lookup, insert, has_of_lookup, lookup-insert_self,
  lookup-insert_ne, lookup-insert_new,
}
use go_ads.Access.Cache.{Cached, Shared, at, put}

at-insert_self : (a : ℕ) (x : Cached) (heap : Dict ℕ Cached) → at (insert a x heap) a ≡ x
unfolding at
at-insert_self a x heap = rw (at, lookup-insert_self a x heap) refl

at-insert_ne :
    (b a : ℕ) (x : Cached) (heap : Dict ℕ Cached)
    → (b == a) ≡ false
    → at (insert a x heap) b ≡ at heap b
unfolding at
at-insert_ne b a x heap e = rw (at, lookup-insert_ne b a x heap e) refl

-- `Open h p` tells that in the state `p` of the PLC the handle is open.
module _ (symbol_key : Bytes → Bytes) {P : Type 0} (Open : ℕ → P → Type 0) where
  -- An entry of the cache has the handle.
  pub record Live (h : ℕ) (s : Shared P) : Type 0 where
    pub key : Bytes
    pub address : ℕ
    pub entry : lookup key s.symbols ≡ some address
    pub has_handle : (at s.heap address).handle ≡ h
    pub nonzero : (h == 0) ≡ false

  -- Each open handle is that of an entry of the cache, but for one at most; and no entry is at an
  -- address that is not allocated yet.
  pub record Tracked (spare : Option ℕ) (s : Shared P) : Type 0 where
    pub owned : (h : ℕ) → Open h s.plc → (spare ≡ some h) ⊎ Live h s
    pub allocated : (k : Bytes) (a : ℕ) → lookup k s.symbols ≡ some a → a < s.next

  pub put_handle :
      (k : Bytes) (a h : ℕ) (s : Shared P)
      → lookup k s.symbols ≡ some a
      → (at s.heap a).handle ≡ 0
      → (h == 0) ≡ false
      → Tracked (some h) s
      → Tracked none (put a (record (at s.heap a) { handle = h }) s)
  unfolding put
  put_handle k a h s e z nz t = record {
    owned = λ g o. inr (elim (t.owned g o) [
      | inl same ↦
          let eq : h ≡ g = ground arith in
          record {
            key = k;
            address = a;
            entry = e;
            has_handle =
                ap (λ x. x.handle) (at-insert_self a (record (at s.heap a) { handle = h }) s.heap)
                ∙ eq;
            nonzero = rw eq at nz;
          }
      | inr l ↦ record {
        key = l.key;
        address = l.address;
        entry = l.entry;
        has_handle = elim (Bool-cases (l.address == a)) [
          | inl q ↦
              let f : l.address ≡ a = ground arith in
              let g0 : g ≡ 0 = sym l.has_handle ∙ ap (λ b. (at s.heap b).handle) f ∙ z in
              let bad : (g == 0) ≡ true = ground arith in absurd cc
          | inr q ↦
              ap (λ x. x.handle)
                (at-insert_ne l.address a (record (at s.heap a) { handle = h }) s.heap q)
              ∙ l.has_handle
        ];
        nonzero = l.nonzero;
      }
    ]);
    allocated = t.allocated;
  }

  pub insert_symbol :
      (k : Bytes) (entry : Cached) (h : ℕ) (s : Shared P)
      → lookup k s.symbols ≡ none
      → (h == 0) ≡ false
      → Tracked (some h) s
      → Tracked none (record s {
        heap = insert s.next (record entry { handle = h }) s.heap;
        next = s.next + 1;
        symbols = insert k s.next s.symbols;
        on_demand_symbols = insert k true s.on_demand_symbols;
      })
  insert_symbol k entry h s e nz t = record {
    owned = λ g o. inr (elim (t.owned g o) [
      | inl same ↦
          let eq : h ≡ g = ground arith in
          record {
            key = k;
            address = s.next;
            entry = lookup-insert_self k s.next s.symbols;
            has_handle =
                ap (λ x. x.handle) (at-insert_self s.next (record entry { handle = h }) s.heap)
                ∙ eq;
            nonzero = rw eq at nz;
          }
      | inr l ↦
          let below = t.allocated l.key l.address l.entry in
          let other : (l.address == s.next) ≡ false = ground arith in
          record {
            key = l.key;
            address = l.address;
            entry =
                lookup-insert_new l.key k s.next s.symbols (has_of_lookup k s.symbols e) l.entry;
            has_handle =
                ap (λ x. x.handle)
                  (at-insert_ne l.address s.next (record entry { handle = h }) s.heap other)
                ∙ l.has_handle;
            nonzero = l.nonzero;
          }
    ]);
    allocated = λ j a f. elim (Bool-cases (eq_text j k)) [
      | inl q ↦
          let g : j ≡ k = eq_text→≡ j k q in
          let i : some s.next ≡ some a =
            sym (lookup-insert_self k s.next s.symbols)
            ∙ ap (λ x. lookup x (insert k s.next s.symbols)) (sym g)
            ∙ f in
          let n : s.next ≡ a = ground arith in omega (arith, n)
      | inr q ↦
          let n = t.allocated j a (sym (lookup-insert_ne j k s.next s.symbols q) ∙ f) in
          omega (arith, n)
    ];
  }

-- ===== src/Access/Resolve/Laws.antt =====
-- getSymbol keeps track of the handles that it makes the PLC open.
use go_ads.Common.{
  ℕ, ◌≡◌, true, false, ◌==◌, Bytes, Option, none, some, arith, inl, inr, Bool-cases, Option-cases,
  Result, ok, err,
}
use go_ads.Common.Dict.{Bytes-Key, ℕ-Key, lookup}
use go_ads.Client.Conn.{Conn, ◌>>=◌}
use go_ads.Access.Cache.{Cached, Shared, at}
use go_ads.Access.Resolve.{
  is_at, require_client, get_handle_by_name, get_symbol_info_by_name, release_handle, commit_handle,
  commit_symbol, get_symbol,
}
use go_ads.Access.Resolve.Handles.{Tracked, put_handle, insert_symbol}

is_at-lookup : (o : Option ℕ) (a : ℕ) → is_at o a ≡ true → o ≡ some a
unfolding is_at
is_at-lookup none a h = cc
is_at-lookup (some b) a h = ground arith

-- `Open h p` tells that in the state `p` the PLC has the handle open; `Lost h p` that it was lost
-- otherwise than by getSymbol's own bookkeeping: others have swapped the cache without releasing it,
-- or the answer to the request that opens or releases it did not arrive.
module _ (symbol_key : Bytes → Bytes) {P : Type 0} (Open Lost : ℕ → P → Type 0) where
  -- Open, and not lost so.
  abbrev pub Owed : ℕ → P → Type 0
  Owed h p = Open h p × ¬ (Lost h p)

  module _ (ask : ℕ → Bytes → Shared P → Result Bytes × Shared P) where
    -- What a request for a handle leaves: the handle may be open, and is spare; or none was opened
    -- that is not lost.
    abbrev pub Granted : Result ℕ × Conn (Shared P) → Type 0
    Granted x = elim x.0 as (λ _. Type 0) [
      | ok h ↦ ((h == 0) ≡ false) × Tracked symbol_key Owed (some h) x.1.world
      | err _ ↦ Tracked symbol_key Owed none x.1.world
    ]

    -- The PLC opens a handle that is not 0, and no other, for a request that asks for one, and closes
    -- it when it is released, unless that fails and the handle is lost; and of the handles of others
    -- none goes out of the cache while the request is out but by being closed or lost.
    pub record Honest : Type 0 where
      pub granting :
          (name : Bytes) (c : Conn (Shared P))
          → Tracked symbol_key Owed none c.world
          → Granted (get_handle_by_name symbol_key ask name c)
      pub informing :
          (name : Bytes) (c : Conn (Shared P))
          → Tracked symbol_key Owed none c.world
          → Tracked symbol_key Owed none (get_symbol_info_by_name symbol_key ask name c).1.world
      pub releasing :
          (h : ℕ) (c : Conn (Shared P))
          → Tracked symbol_key Owed (some h) c.world
          → Tracked symbol_key Owed none (release_handle symbol_key ask h c).world

    module _ (honest : Honest) where
      abbrev Kept : Result ℕ × Conn (Shared P) → Type 0
      Kept x = Tracked symbol_key Owed none x.1.world

      commit_handle-Kept :
          (name : Bytes) (a h : ℕ) (c : Conn (Shared P))
          → (h == 0) ≡ false
          → Tracked symbol_key Owed (some h) c.world
          → Kept (commit_handle symbol_key ask name a h c)
      unfolding commit_handle
      commit_handle-Kept name a h c nz t =
          let s = c.world in
          let released = honest.releasing h c t in
          elim (Bool-cases (is_at (lookup (symbol_key name) s.symbols) a)) [
            | inr e ↦ rw e released
            | inl e ↦ elim (Bool-cases ((at s.heap a).handle == 0)) [
              | inr f ↦ rw (e, f) released
              | inl f ↦
                  let z : (at s.heap a).handle ≡ 0 = ground arith in
                  rw (e, f)
                    (put_handle symbol_key Owed (symbol_key name) a h s
                      (is_at-lookup (lookup (symbol_key name) s.symbols) a e) z nz t)
            ]
          ]

      commit_symbol-Kept :
          (name : Bytes) (entry : Cached) (h : ℕ) (c : Conn (Shared P))
          → (h == 0) ≡ false
          → Tracked symbol_key Owed (some h) c.world
          → Kept (commit_symbol symbol_key ask name entry h c)
      unfolding commit_symbol
      commit_symbol-Kept name entry h c nz t =
          elim (Option-cases (lookup (symbol_key name) c.world.symbols)) [
            | inl e ↦
                rw (commit_symbol, e)
                  (insert_symbol symbol_key Owed (symbol_key name) entry h c.world e nz t)
            | inr (a, e) ↦ rw (commit_symbol, e) (honest.releasing h c t)
          ]

      -- With the handle that was granted, or without one.
      Granted-both :
          (x : Result ℕ × Conn (Shared P)) (f : ℕ → Conn (Shared P) → Result ℕ × Conn (Shared P))
          → Granted x
          → ((h : ℕ)
              → (h == 0) ≡ false
              → Tracked symbol_key Owed (some h) x.1.world
              → Kept (f h x.1))
          → Kept (elim x.0 as (λ _. Result ℕ × Conn (Shared P)) [
            | ok h ↦ f h x.1
            | err e ↦ (err e, x.1)
          ])
      Granted-both (err e, c) f g k = g
      Granted-both (ok h, c) f (nz, t) k = k h nz t

      acquired-Kept :
          (name : Bytes) (f : ℕ → Conn (Shared P) → Result ℕ × Conn (Shared P))
          (c : Conn (Shared P))
          → ((h : ℕ) (c' : Conn (Shared P))
              → (h == 0) ≡ false
              → Tracked symbol_key Owed (some h) c'.world
              → Kept (f h c'))
          → Tracked symbol_key Owed none c.world
          → Kept ((get_handle_by_name symbol_key ask name >>= f) c)
      acquired-Kept name f c k t =
          let x = get_handle_by_name symbol_key ask name c in
          Granted-both x f (honest.granting name c t) (λ h. k h x.1)

      cases-Kept :
          {A : Type 0} (x : Result A × Conn (Shared P))
          (f : A → Conn (Shared P) → Result ℕ × Conn (Shared P))
          → Tracked symbol_key Owed none x.1.world
          → ((a : A) → Kept (f a x.1))
          → Kept (elim x.0 as (λ _. Result ℕ × Conn (Shared P)) [
            | ok a ↦ f a x.1
            | err e ↦ (err e, x.1)
          ])
      cases-Kept (err e, c) f t k = t
      cases-Kept (ok a, c) f t k = k a

      required-Kept :
          (f : Conn (Shared P) → Result ℕ × Conn (Shared P)) (c : Conn (Shared P))
          → Tracked symbol_key Owed none c.world
          → Kept (f c)
          → Kept ((require_client symbol_key ask >>= λ _. f) c)
      unfolding require_client
      required-Kept f c t k = cases-Kept (require_client symbol_key ask c) (λ _. f) t (λ _. k)

      informed-Kept :
          (name : Bytes) (f : Cached → Conn (Shared P) → Result ℕ × Conn (Shared P))
          (c : Conn (Shared P))
          → ((entry : Cached) (c' : Conn (Shared P))
              → Tracked symbol_key Owed none c'.world
              → Kept (f entry c'))
          → Tracked symbol_key Owed none c.world
          → Kept ((get_symbol_info_by_name symbol_key ask name >>= f) c)
      informed-Kept name f c k t =
          let x = get_symbol_info_by_name symbol_key ask name c in
          let t' = honest.informing name c t in cases-Kept x f t' (λ entry. k entry x.1 t')

      -- Where the PLC opens a handle for each request that asks for one, and closes the one that is
      -- released, and `Lost` tells which handles others drop from the cache without releasing them,
      -- and which are lost with an answer: if each open handle that is not lost is that of an entry of
      -- the cache, so it is after getSymbol, which loses none by itself, whatever was swapped or
      -- resolved by others in between.
      pub get_symbol-Tracked :
          (name : Bytes) (c : Conn (Shared P))
          → Tracked symbol_key Owed none c.world
          → Tracked symbol_key Owed none (get_symbol symbol_key ask name c).1.world
      unfolding get_symbol
      get_symbol-Tracked name c t = elim (Option-cases (lookup (symbol_key name) c.world.symbols)) [
        | inl e ↦
            let with_entry : Cached → Conn (Shared P) → Result ℕ × Conn (Shared P) = λ entry.
              get_handle_by_name symbol_key ask name >>= commit_symbol symbol_key ask name entry in
            rw (get_symbol, e)
              (required-Kept (get_symbol_info_by_name symbol_key ask name >>= with_entry) c t (
                informed-Kept name with_entry c
                  (λ entry c' t'.
                    acquired-Kept name (commit_symbol symbol_key ask name entry) c'
                      (λ h c''. commit_symbol-Kept name entry h c'') t')
                  t))
        | inr (a, e) ↦ elim (Bool-cases ((at c.world.heap a).handle == 0)) [
          | inl f ↦
              rw (get_symbol, e, f)
                (required-Kept
                  (get_handle_by_name symbol_key ask name >>= commit_handle symbol_key ask name a) c
                  t
                  (acquired-Kept name (commit_handle symbol_key ask name a) c
                    (λ h c'. commit_handle-Kept name a h c') t))
          | inr f ↦ rw (get_symbol, e, f) t
        ]
      ]

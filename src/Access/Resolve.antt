-- ===== src/Access/Resolve.antt =====
-- getSymbol of symbol_discovery.go, with GetHandleByName and GetSymbolInfoByName. The names of
-- requests are UTF-8 bytes; an error that is no ReturnCode is `malformed` or `transport`.
pub mod Handles
pub mod Laws
mod Samples
use go_ads.Common.{
  ℕ, Bool, true, false, not, ◌==◌, List, [], ◌∷◌, ◌++◌, Bytes, length, ltb, Option, none, some,
  if◌then◌else◌, Result, ok, err, transport, malformed, ◌+◌,
}
use go_ads.Common.Words.{put_le}
use go_ads.Common.Dict.{Dict, ℕ-Key, Bytes-Key, lookup, insert, has}
use go_ads.Defs.Group
use go_ads.Codec.{Symbol}
use go_ads.Symbols.Entry.{c_string, normalize_string_data_type, get_symbol_entry, get_texts}
use go_ads.Client.Conn.{Conn, M, ◌>>=◌, pure, lift}
use go_ads.Client.Rpc.{write, write_read}
use go_ads.Client.Sum.Layout.{u32}
use go_ads.Access.Cache.{Cached, Shared, at, put}

-- 50 ms
abbrev min_update_interval_on_demand : ℕ
min_update_interval_on_demand = 50000000

-- The same pointer.
unfoldable pub is_at : Option ℕ → ℕ → Bool
is_at none address = false
is_at (some a) address = a == address

module _ (symbol_key : Bytes → Bytes) {P : Type 0}
    (ask : ℕ → Bytes → Shared P → Result Bytes × Shared P) where
  -- sess.requireClient
  unfoldable pub require_client : M (Shared P) (Unit {0})
  require_client c = (if c.world.has_client then ok tt else err transport, c)

  unfoldable pub get_handle_by_name : Bytes → M (Shared P) ℕ
  get_handle_by_name name = do
    resp ← write_read ask Group.symbol_handle_by_name 0 4 (name ++ (0 ∷ []))
    if ltb (length resp) 4 then lift (err malformed) else pure (u32 resp)

  unfoldable pub get_symbol_info_by_name : Bytes → M (Shared P) Cached
  get_symbol_info_by_name name = do
    resp ← write_read ask Group.symbol_info_by_name_ex 0 2048 (name ++ (0 ∷ []))
    (entry, rest) ← lift (get_symbol_entry resp)
    (texts, _) ← lift (get_texts entry.name_length entry.type_length entry.comment_length rest)
    λ c. (
      ok (record {
        codec = record {
          data_type = normalize_string_data_type (c_string texts.data_type);
          base_type = entry.data_type;
          size = entry.size;
        };
        group = entry.igroup;
        offset = entry.ioffs;
        parent_offsets = [];
        handle = 0;
        value = [];
        value_parsed = false;
        last_update_time = c.world.now;
        min_update_interval = min_update_interval_on_demand;
      }),
      c,
    )

  -- A failure of the release is logged.
  unfoldable pub release_handle : ℕ → Conn (Shared P) → Conn (Shared P)
  release_handle handle c = (write ask Group.symbol_release_handle 0 (put_le 4 handle) c).1

  -- What is done with a handle for the symbol that stood at `address`.
  unfoldable pub commit_handle : Bytes → ℕ → ℕ → M (Shared P) ℕ
  unfolding is_at at put
  commit_handle name address handle c =
      let s = c.world in
      let local = at s.heap address in
      let released = release_handle handle c in
      if not (is_at (lookup (symbol_key name) s.symbols) address)
      then (err malformed, released)
      else if not (local.handle == 0)
      then (ok address, released)
      else (ok address, record c { world = put address (record local { handle = handle }) s })

  -- What is done with a symbol that was looked up on demand, and its handle.
  unfoldable pub commit_symbol : Bytes → Cached → ℕ → M (Shared P) ℕ
  commit_symbol name entry handle c =
      let s = c.world in
      let key = symbol_key name in
      elim (lookup key s.symbols) [
        | some existing ↦ (ok existing, release_handle handle c)
        | none ↦ (
          ok s.next,
          record c {
            world = record s {
              heap = insert s.next (record entry { handle = handle }) s.heap;
              next = s.next + 1;
              symbols = insert key s.next s.symbols;
              on_demand_symbols = insert key true s.on_demand_symbols;
            };
          },
        )
      ]

  -- The address of the symbol.
  unfoldable pub get_symbol : Bytes → M (Shared P) ℕ
  unfolding at
  get_symbol name c = elim (lookup (symbol_key name) c.world.symbols) [
    | some address ↦
        if (at c.world.heap address).handle == 0
        then (do
          _ ← require_client
          handle ← get_handle_by_name name
          commit_handle name address handle)
            c
        else (ok address, c)
    | none ↦
        (do
          _ ← require_client
          entry ← get_symbol_info_by_name name
          handle ← get_handle_by_name name
          commit_symbol name entry handle)
          c
  ]

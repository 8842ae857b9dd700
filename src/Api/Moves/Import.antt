-- ===== src/Api/Moves/Import.antt =====
-- `importKeys` moves the shared state as `Moves` says.
use opencode_proxy.Base.{
  ℕ, suc, Bool, true, false, ◌||◌, List, [], ◌∷◌, Option, none, some, if◌then◌else◌, length, ltb,
  ◌==◌, exists,
}
use opencode_proxy.Base.Int.{pos, wrap_int64, ◌+ℤ◌}
use opencode_proxy.Text.{Text, text_eq, trim_space}
use opencode_proxy.Store.Types.{Key, Db, Result, ok, err, StoreError}
use opencode_proxy.Store.Steps.{Reach}
use opencode_proxy.Identity.{Persist}
use opencode_proxy.Api.Keys.Console.{after_persist}
use opencode_proxy.Api.Server.{Backend, Server}
use opencode_proxy.Api.Pool.{with_server_db, is_empty, priority_or_default}
use opencode_proxy.Api.Import.{
  ImportInput, Import, tested_if, import_persisted, import_key, import_loop, nothing_imported,
  import_keys, max_import_keys, import_name,
}
use opencode_proxy.Api.Moves.{Moves, Moves-refl, Moves-trans, Moves-of_Reach, reply-Moves, if-Moves}
use opencode_proxy.Api.Moves.Pool.{persisted-Reach, tested-Moves}

module _ {p : Persist} (b : Backend) (input : ImportInput) where
  tested_if-Moves :
      (asked inference : Bool) (k : Key) (s : Server)
      → Moves b p s (tested_if b asked inference k s).1
  tested_if-Moves false inference k s = Moves-refl s
  tested_if-Moves true inference k s = tested-Moves b k inference s

  import_persisted-Moves :
      (line : ℕ) (name fingerprint : Text) (i : Import) (r : Option (Result (Db × Key)))
      → Reach i.server.world.db (after_persist i.server.world.db r)
      → Moves b p i.server (import_persisted b input line name fingerprint i r).server
  import_persisted-Moves line name f i none h = Moves-refl i.server
  import_persisted-Moves line name f i (some (err StoreError.unique_violation)) h =
      Moves-refl i.server
  import_persisted-Moves line name f i (some (err StoreError.foreign_key_violation)) h =
      Moves-refl i.server
  import_persisted-Moves line name f i (some (err StoreError.not_found)) h = Moves-refl i.server
  import_persisted-Moves line name f i (some (ok (db, k))) h =
      Moves-trans (Moves-of_Reach i.server _ h) (
        tested_if-Moves (input.validate || input.test_inference) input.test_inference k
          (with_server_db db i.server))

  import-if :
      (c : Bool) (i j k : Import)
      → Moves b p i.server j.server
      → Moves b p i.server k.server
      → Moves b p i.server (if c then j else k).server
  import-if true i j k m n = m
  import-if false i j k m n = n

  import_key-Moves :
      (index : ℕ) (raw : Text) (i : Import)
      → Moves b p i.server (import_key b input index raw i).server
  unfolding import_key
  import_key-Moves index raw i =
      let secret = trim_space raw in
      let fingerprint = b.fingerprint_of secret in
      let name = import_name input fingerprint (suc index) in
      import-if (is_empty secret) i _ _ (Moves-refl i.server) (
        import-if (ltb 4096 (length secret)) i _ _ (Moves-refl i.server) (
          import-if (exists (text_eq fingerprint) i.seen) i _ _ (Moves-refl i.server) (
            import_persisted-Moves (suc index) name fingerprint
              (record i { seen = fingerprint ∷ i.seen }) _
              (persisted-Reach b name secret
                (wrap_int64 (priority_or_default input.priority +ℤ pos index)) i.server))))

  import_loop-Moves :
      (index : ℕ) (raws : List Text) (i : Import)
      → Moves b p i.server (import_loop b input index raws i).server
  unfolding import_loop
  import_loop-Moves index [] i = Moves-refl i.server
  import_loop-Moves index (raw ∷ raws) i =
      Moves-trans (import_key-Moves index raw i)
        (import_loop-Moves (suc index) raws (import_key b input index raw i))

pub import_keys-Moves :
    {p : Persist} (b : Backend) (input : Option ImportInput) (s : Server)
    → Moves b p s (import_keys b input s)
unfolding import_keys
import_keys-Moves b none s = reply-Moves _ _ s
import_keys-Moves b (some input) s = if-Moves (length input.keys == 0) s _ _ (reply-Moves _ _ s) (
    if-Moves (ltb max_import_keys (length input.keys)) s _ _ (reply-Moves _ _ s) (
      Moves-trans (import_loop-Moves b input 0 input.keys (nothing_imported s))
        (reply-Moves _ _ (import_loop b input 0 input.keys (nothing_imported s)).server)))

-- ===== src/Api/Moves/Pool.antt =====
-- The handlers of the pool of keys move the shared state as `Moves` says.
use opencode_proxy.Base.{ℕ, Bool, Option, none, some}
use opencode_proxy.Base.Int.{ℤ, pos, negsuc}
use opencode_proxy.Text.{Text, trim_space}
use opencode_proxy.Text.Numbers.{atoi}
use opencode_proxy.Store.Types.{Key, Db, Result, ok, err, StoreError}
use opencode_proxy.Store.Keys.{key_by_id}
use opencode_proxy.Store.Steps.{Reach, here, next, delete}
use opencode_proxy.Proxy.Probe.{TestResult}
use opencode_proxy.Proxy.Probe.Calls.{test_key-Probes}
use opencode_proxy.Identity.{Persist}
use opencode_proxy.Api.Keys.{
  AdminReply, accepted, missing, invalid_request, conflict, server_failure, KeyInput, edit_key,
  activate_key, not_found_or_error,
}
use opencode_proxy.Api.Keys.Console.{
  after_persist, persist_key-Reach, edit_key-Reach, activate_key-Reach,
}
use opencode_proxy.Api.Server.{Backend, Server}
use opencode_proxy.Api.Pool.{
  with_server_db, if_id, with_id, key_of, refuse, CreateInput, is_empty, priority_or_default,
  tested, created, persisted, create_key_handler, updated_row, updated_answer, update_row,
  update_key_handler, delete_row, delete_key_handler, activate_row, activate_key_handler,
  tested_answer, test_row, test_key_handler,
}
use opencode_proxy.Api.Moves.{
  Moves, Moves-trans, Moves-of_Reach, reply-Moves, header_status-Moves, if-Moves,
}

pub persisted-Reach :
    (b : Backend) (name key : Text) (priority : ℤ) (s : Server)
    → Reach s.world.db (after_persist s.world.db (persisted b name key priority s))
persisted-Reach b name key priority s =
    persist_key-Reach b.fingerprint_of b.encrypt name key priority s.world.clock s.world.db

module _ {p : Persist} (b : Backend) where
  pub db-Moves : (s : Server) (db : Db) → Reach s.world.db db → Moves b p s (with_server_db db s)
  db-Moves s db r = Moves-of_Reach s _ r

  refuse-Moves : (a : AdminReply) (s : Server) → Moves b p s (refuse b a s)
  refuse-Moves accepted s = reply-Moves _ _ s
  refuse-Moves missing s = reply-Moves _ _ s
  refuse-Moves invalid_request s = reply-Moves _ _ s
  refuse-Moves conflict s = reply-Moves _ _ s
  refuse-Moves server_failure s = reply-Moves _ _ s

  with_id-Moves :
      (id : Text) (handler : ℤ → Server) (s : Server)
      → ((n : ℤ) → Moves b p s (handler n))
      → Moves b p s (with_id b id handler s)
  with_id-Moves id handler s m = go (atoi id)
    where
      go : (o : Option ℤ) → Moves b p s (if_id b handler s o)
      go none = reply-Moves _ _ s
      go (some n) = m n

  pub tested-Moves :
      (k : Key) (inference : Bool) (s : Server) → Moves b p s (tested b k inference s).1
  tested-Moves k inference s = Moves-of_Reach s _ (test_key-Probes b.env k inference s.world).reach

  created-Moves :
      (input : CreateInput) (s : Server) (r : Option (Result (Db × Key)))
      → Reach s.world.db (after_persist s.world.db r)
      → Moves b p s (created b input s r)
  created-Moves input s none h = reply-Moves _ _ s
  created-Moves input s (some (err StoreError.unique_violation)) h = reply-Moves _ _ s
  created-Moves input s (some (err StoreError.foreign_key_violation)) h = reply-Moves _ _ s
  created-Moves input s (some (err StoreError.not_found)) h = reply-Moves _ _ s
  created-Moves input s (some (ok (db, k))) h = Moves-trans (db-Moves s db h) (
      Moves-trans (tested-Moves k input.test_inference (with_server_db db s))
        (reply-Moves _ _ (tested b k input.test_inference (with_server_db db s)).1))

  pub create_key-Moves :
      (input : Option CreateInput) (s : Server) → Moves b p s (create_key_handler b input s)
  unfolding create_key_handler
  create_key-Moves none s = reply-Moves _ _ s
  create_key-Moves (some input) s =
      if-Moves (is_empty (trim_space input.key)) s _ _ (reply-Moves _ _ s) (
        created-Moves input s _
          (persisted-Reach b input.name input.key (priority_or_default input.priority) s))

  updated-Moves :
      (id : ℕ) (input : Option KeyInput) (a : AdminReply) (s : Server)
      → Moves b p s (updated_answer b id input a s)
  updated-Moves id input accepted s = go (key_by_id id s.world.db)
    where
      go : (r : Result Key) → Moves b p s (updated_row b s r)
      go (ok k) = reply-Moves _ _ s
      go (err e) = reply-Moves _ _ s
  updated-Moves id (some input) invalid_request s = reply-Moves _ _ s
  updated-Moves id none invalid_request s = refuse-Moves invalid_request s
  updated-Moves id none missing s = refuse-Moves missing s
  updated-Moves id none conflict s = refuse-Moves conflict s
  updated-Moves id none server_failure s = refuse-Moves server_failure s
  updated-Moves id (some input) missing s = refuse-Moves missing s
  updated-Moves id (some input) conflict s = refuse-Moves conflict s
  updated-Moves id (some input) server_failure s = refuse-Moves server_failure s

  pub update_key-Moves :
      (id : Text) (input : Option KeyInput) (s : Server)
      → Moves b p s (update_key_handler b id input s)
  unfolding update_key_handler
  update_key-Moves id input s = with_id-Moves id (update_row b input s) s row
    where
      row : (n : ℤ) → Moves b p s (update_row b input s n)
      row (negsuc n) = refuse-Moves missing s
      row (pos n) =
          let r = edit_key n input s.world.clock s.world.db in
          Moves-trans (db-Moves s r.1 (edit_key-Reach n input s.world.clock s.world.db))
            (updated-Moves n input r.0 (with_server_db r.1 s))

  pub delete_key-Moves : (id : Text) (s : Server) → Moves b p s (delete_key_handler b id s)
  unfolding delete_key_handler
  delete_key-Moves id s = with_id-Moves id _ s (λ n.
      Moves-trans (db-Moves s (delete_row n s.world.db) (row n))
        (header_status-Moves 204 (with_server_db (delete_row n s.world.db) s)))
    where
      row : (n : ℤ) → Reach s.world.db (delete_row n s.world.db)
      row (negsuc n) = here
      row (pos n) = next here (delete n)

  pub activate_key-Moves : (id : Text) (s : Server) → Moves b p s (activate_key_handler b id s)
  unfolding activate_key_handler
  activate_key-Moves id s = with_id-Moves id (activate_row b s) s row
    where
      row : (n : ℤ) → Moves b p s (activate_row b s n)
      row (negsuc n) = refuse-Moves missing s
      row (pos n) =
          let r = activate_key n s.world.clock s.world.db in
          Moves-trans (db-Moves s r.1 (activate_key-Reach n s.world.clock s.world.db))
            (refuse-Moves r.0 (with_server_db r.1 s))

  tested_answer-Moves :
      (s t : Server) (r : TestResult) → Moves b p s t → Moves b p s (tested_answer b (r, t))
  tested_answer-Moves s t TestResult.failed_call m = Moves-trans m (reply-Moves _ _ t)
  tested_answer-Moves s t (TestResult.models_failed n x) m = Moves-trans m (reply-Moves _ _ t)
  tested_answer-Moves s t TestResult.models_ok m = Moves-trans m (reply-Moves _ _ t)
  tested_answer-Moves s t (TestResult.key_failed n c) m = Moves-trans m (reply-Moves _ _ t)
  tested_answer-Moves s t (TestResult.inference_ok n) m = Moves-trans m (reply-Moves _ _ t)
  tested_answer-Moves s t (TestResult.inference_failed n c) m = Moves-trans m (reply-Moves _ _ t)

  pub test_key-Moves :
      (id : Text) (inference : Bool) (s : Server) → Moves b p s (test_key_handler b id inference s)
  unfolding test_key_handler
  test_key-Moves id inference s = with_id-Moves id _ s (λ n. row (key_of n s.world.db))
    where
      row : (r : Result Key) → Moves b p s (test_row b inference s r)
      row (err e) = refuse-Moves (not_found_or_error e) s
      row (ok k) =
          let t = tested b k inference s in
          tested_answer-Moves s t.1 t.0 (tested-Moves k inference s)

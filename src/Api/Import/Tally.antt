-- ===== src/Api/Import/Tally.antt =====
-- The counts that `importKeys` of internal/httpapi/api.go answers with, against the results beside them.
use opencode_proxy.Base.{
  ℕ, suc, ◌+◌, ◌≡◌, refl, sym, ap, ◌∙◌, Bool, true, false, List, [], ◌∷◌, ◌++◌, Option, none, some,
  ltb, if◌then◌else◌, length, exists, arith,
}
use opencode_proxy.Text.{Text, text_eq, trim_space}
use opencode_proxy.Store.Types.{Key, Db, Result, ok, err, unique_violation}
use opencode_proxy.Api.Server.{
  Backend, Server, ImportStatus, imported, duplicate, failed, ImportResult,
}
use opencode_proxy.Api.Pool.{is_empty}
use opencode_proxy.Api.Import.{
  ImportInput, Import, import_name, import_persisted, import_key, import_loop, nothing_imported,
}

abbrev pub is_imported : ImportStatus → Bool
is_imported imported = true
is_imported _ = false

abbrev pub is_duplicate : ImportStatus → Bool
is_duplicate duplicate = true
is_duplicate _ = false

abbrev pub is_failed : ImportStatus → Bool
is_failed failed = true
is_failed _ = false

abbrev pub one_more_if : Bool → ℕ → ℕ
one_more_if true n = suc n
one_more_if false n = n

-- How many results have a status.
unfoldable pub tally : (ImportStatus → Bool) → List ImportResult → ℕ
tally p [] = 0
tally p (r ∷ rs) = one_more_if (p r.status) (tally p rs)

one_more_if-suc : (c : Bool) (n : ℕ) → one_more_if c (suc n) ≡ suc (one_more_if c n)
one_more_if-suc true n = refl
one_more_if-suc false n = refl

one_more_if_comm :
    (c d : Bool) (n : ℕ) → one_more_if c (one_more_if d n) ≡ one_more_if d (one_more_if c n)
one_more_if_comm true d n = sym (one_more_if-suc d n)
one_more_if_comm false d n = refl

tally-append :
    (p : ImportStatus → Bool) (rs : List ImportResult) (r : ImportResult)
    → tally p (rs ++ r ∷ []) ≡ one_more_if (p r.status) (tally p rs)
unfolding tally
tally-append p [] r = refl
tally-append p (q ∷ rs) r =
    ap (one_more_if (p q.status)) (tally-append p rs r)
    ∙ one_more_if_comm (p q.status) (p r.status) (tally p rs)

length-append_one :
    (rs : List ImportResult) (r : ImportResult) → length (rs ++ r ∷ []) ≡ suc (length rs)
length-append_one [] r = refl
length-append_one (q ∷ rs) r = ap suc (length-append_one rs r)

-- With all three statuses every result is counted.
tally-total :
    (rs : List ImportResult)
    → tally is_imported rs + (tally is_duplicate rs + tally is_failed rs) ≡ length rs
unfolding tally
tally-total [] = omega arith
tally-total (r ∷ rs) = one_status r.status (tally-total rs)
  where
    one_status :
        (st : ImportStatus)
        → tally is_imported rs + (tally is_duplicate rs + tally is_failed rs) ≡ length rs
        → one_more_if (is_imported st) (tally is_imported rs)
            + (one_more_if (is_duplicate st) (tally is_duplicate rs)
                + one_more_if (is_failed st) (tally is_failed rs))
          ≡ suc (length rs)
    one_status imported e = omega arith
    one_status duplicate e = omega arith
    one_status failed e = omega arith

-- The counts agree with `n` results.
abbrev pub IsTallied : ℕ → Import → Type 0
IsTallied n i =
    (length i.results ≡ n)
    × (i.imported_count ≡ tally is_imported i.results)
    × (i.duplicates ≡ tally is_duplicate i.results)
    × (i.failures ≡ tally is_failed i.results)

-- One more result, counted under its status.
abbrev pub IsRound : Import → Import → Type 0
IsRound i j =
    (r : ImportResult) × (j.results ≡ i.results ++ r ∷ [])
    × (j.imported_count ≡ one_more_if (is_imported r.status) i.imported_count)
    × (j.duplicates ≡ one_more_if (is_duplicate r.status) i.duplicates)
    × (j.failures ≡ one_more_if (is_failed r.status) i.failures)

IsTallied-step : (n : ℕ) (i j : Import) → IsTallied n i → IsRound i j → IsTallied (suc n) j
IsTallied-step n i j (l, a, b, c) (r, e, x, y, z) = rw e (
  length-append_one i.results r ∙ ap suc l,
  x ∙ ap (one_more_if (is_imported r.status)) a ∙ sym (tally-append is_imported i.results r),
  y ∙ ap (one_more_if (is_duplicate r.status)) b ∙ sym (tally-append is_duplicate i.results r),
  z ∙ ap (one_more_if (is_failed r.status)) c ∙ sym (tally-append is_failed i.results r),
)

module _ (b : Backend) (input : ImportInput) where
  if-IsRound :
      (c : Bool) (i t u : Import) → IsRound i t → IsRound i u → IsRound i (if c then t else u)
  if-IsRound true i t u m n = m
  if-IsRound false i t u m n = n

  persisted-IsRound :
      (line : ℕ) (name fingerprint : Text) (i : Import) (r : Option (Result (Db × Key)))
      → IsRound i (import_persisted b input line name fingerprint i r)
  persisted-IsRound line name fingerprint i none = (_, refl, refl, refl, refl)
  persisted-IsRound line name fingerprint i (some (err unique_violation)) =
      (_, refl, refl, refl, refl)
  persisted-IsRound line name fingerprint i (some (err e)) = (_, refl, refl, refl, refl)
  persisted-IsRound line name fingerprint i (some (ok (db, key))) = (_, refl, refl, refl, refl)

  import_key-IsRound :
      (index : ℕ) (raw : Text) (i : Import) → IsRound i (import_key b input index raw i)
  unfolding import_key
  import_key-IsRound index raw i =
      let secret = trim_space raw in
      let fingerprint = b.fingerprint_of secret in
      if-IsRound (is_empty secret) i _ _ (_, refl, refl, refl, refl)
        (if-IsRound (ltb 4096 (length secret)) i _ _ (_, refl, refl, refl, refl)
          (if-IsRound (exists (text_eq fingerprint) i.seen) i _ _ (_, refl, refl, refl, refl)
            (persisted-IsRound (suc index) (import_name input fingerprint (suc index)) fingerprint
              (record i { seen = fingerprint ∷ i.seen }) _)))

  IsTallied-loop :
      (raws : List Text) (index n : ℕ) (i : Import)
      → IsTallied n i
      → IsTallied (n + length raws) (import_loop b input index raws i)
  unfolding import_loop
  IsTallied-loop [] index n i (l, x, y, z) = (omega arith, x, y, z)
  IsTallied-loop (raw ∷ raws) index n i t =
      let j = import_key b input index raw i in
      let (l, x, y, z) =
        IsTallied-loop raws (suc index) (suc n) j
          (IsTallied-step n i j t (import_key-IsRound index raw i)) in
      (omega arith, x, y, z)

-- An import gives one result for every key of the body, its counts of imported keys, of duplicates and
-- of failures are the numbers of results with the status, and the three sum up to the number of keys.
pub import_loop-IsTallied :
    (b : Backend) (input : ImportInput) (raws : List Text) (s : Server)
    → let i = import_loop b input 0 raws (nothing_imported s) in
      IsTallied (length raws) i × (i.imported_count + (i.duplicates + i.failures) ≡ length raws)
unfolding tally
import_loop-IsTallied b input raws s =
    let i = import_loop b input 0 raws (nothing_imported s) in
    let (l, x, y, z) =
      IsTallied-loop b input raws 0 0 (nothing_imported s) (refl, refl, refl, refl) in
    let total = tally-total i.results in ((omega arith, x, y, z), omega arith)

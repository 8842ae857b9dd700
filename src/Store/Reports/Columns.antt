-- ===== src/Store/Reports/Columns.antt =====
-- The columns that the aggregates of internal/store/sqlite.go have in common: COUNT, SUM of a test, and
-- SUM of a column of the usage, in which NULL counts nothing.
use opencode_proxy.Base.{
  ℕ, ◌+◌, ◌≡◌, Bool, true, false, List, Option, none, some, ltb, if◌then◌else◌, arith,
}
use opencode_proxy.Base.Int.{ℤ, pos, ◌+ℤ◌, +ℤ_comm, +ℤ_assoc, zero-+ℤ}
use opencode_proxy.Base.Groups.{Adding, sum_of}
use opencode_proxy.Store.Types.{RequestRow, Outcome, UsageState}

pub record Totals : Type 0 where
  pub requests : ℕ
  pub successes : ℕ
  pub failures : ℕ
  pub failovers : ℕ
  pub input_uncached : ℤ
  pub cache_read : ℤ
  pub cache_write : ℤ
  pub output_tokens : ℤ
  pub usage_complete : ℕ

abbrev pub no_totals : Totals
no_totals = record {
  requests = 0;
  successes = 0;
  failures = 0;
  failovers = 0;
  input_uncached = pos 0;
  cache_read = pos 0;
  cache_write = pos 0;
  output_tokens = pos 0;
  usage_complete = 0;
}

unfoldable pub add_totals : Totals → Totals → Totals
add_totals a b = record {
  requests = a.requests + b.requests;
  successes = a.successes + b.successes;
  failures = a.failures + b.failures;
  failovers = a.failovers + b.failovers;
  input_uncached = a.input_uncached +ℤ b.input_uncached;
  cache_read = a.cache_read +ℤ b.cache_read;
  cache_write = a.cache_write +ℤ b.cache_write;
  output_tokens = a.output_tokens +ℤ b.output_tokens;
  usage_complete = a.usage_complete + b.usage_complete;
}

abbrev pub number_of : Option ℤ → ℤ
number_of none = pos 0
number_of (some n) = n

-- `CASE WHEN … THEN 1 ELSE 0 END`.
abbrev pub one_if : Bool → ℕ
one_if b = if b then 1 else 0

abbrev pub is_success : RequestRow → Bool
is_success r = elim r.record_of.outcome [ Outcome.success ↦ true | _ ↦ false ]

abbrev pub is_complete : RequestRow → Bool
is_complete r = elim r.usage.state [ UsageState.complete ↦ true | _ ↦ false ]

-- What one row adds; the reports differ in what they call a failure.
abbrev pub row_totals : (RequestRow → Bool) → RequestRow → Totals
row_totals is_failed r = record {
  requests = 1;
  successes = one_if (is_success r);
  failures = one_if (is_failed r);
  failovers = one_if (ltb 1 r.record_of.attempt_count);
  input_uncached = number_of r.usage.input_uncached;
  cache_read = number_of r.usage.cache_read;
  cache_write = number_of r.usage.cache_write;
  output_tokens = number_of r.usage.output_tokens;
  usage_complete = one_if (is_complete r);
}

pub totals-ext :
    (a b : Totals)
    → a.requests ≡ b.requests
    → a.successes ≡ b.successes
    → a.failures ≡ b.failures
    → a.failovers ≡ b.failovers
    → a.input_uncached ≡ b.input_uncached
    → a.cache_read ≡ b.cache_read
    → a.cache_write ≡ b.cache_write
    → a.output_tokens ≡ b.output_tokens
    → a.usage_complete ≡ b.usage_complete
    → a ≡ b
totals-ext a b h1 h2 h3 h4 h5 h6 h7 h8 h9 = cc

pub add_totals_assoc :
    (a b c : Totals) → add_totals (add_totals a b) c ≡ add_totals a (add_totals b c)
unfolding add_totals
add_totals_assoc a b c =
    totals-ext _ _ (omega arith) (omega arith) (omega arith) (omega arith) (+ℤ_assoc _ _ _)
      (+ℤ_assoc _ _ _) (+ℤ_assoc _ _ _) (+ℤ_assoc _ _ _) (omega arith)

pub add_totals_comm : (a b : Totals) → add_totals a b ≡ add_totals b a
unfolding add_totals
add_totals_comm a b =
    totals-ext _ _ (omega arith) (omega arith) (omega arith) (omega arith) (+ℤ_comm _ _)
      (+ℤ_comm _ _) (+ℤ_comm _ _) (+ℤ_comm _ _) (omega arith)

pub no_totals-add_totals : (a : Totals) → add_totals no_totals a ≡ a
unfolding add_totals
no_totals-add_totals a =
    totals-ext _ _ (omega arith) (omega arith) (omega arith) (omega arith) (zero-+ℤ _) (zero-+ℤ _)
      (zero-+ℤ _) (zero-+ℤ _) (omega arith)

abbrev pub adding_totals : Adding Totals
adding_totals = record {
  zero = no_totals;
  add = add_totals;
  add_assoc = add_totals_assoc;
  add_comm = add_totals_comm;
  zero-add = no_totals-add_totals;
}

-- The SELECT of the common columns, over the given rows.
unfoldable pub totals_of : (RequestRow → Bool) → List RequestRow → Totals
unfolding sum_of add_totals
totals_of is_failed rows = sum_of adding_totals (row_totals is_failed) rows

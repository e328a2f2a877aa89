-- ===== src/Usage/Billing.antt =====
-- The billing events add up to the counters.
use m_gate.Prelude.{
  List, String, [], ap, arith, if◌then◌else◌, or_default, pos, refl, some, ℕ, ◌&&◌, ◌++◌, ◌+◌, ◌==◌,
  ◌∷◌, ◌≡◌, string_eq, nat_eq, pair_eq,
}
use m_gate.Usage.{BillingEvent, Metering, get_usage, record_billable_call, record_usage}
use m_gate.Usage.Counting.{calls-record_usage}

-- What the events bill of a tenant's calls in a period.
unfoldable pub billed : String → String → List BillingEvent → ℕ
billed tenant period [] = 0
billed tenant period (e ∷ events) =
    (if (e.tenant_id == tenant) && ((e.period == period) && (e.kind == "calls"))
      then e.amount
      else 0)
    + billed tenant period events

pub billed-append :
    (tenant period : String) (xs ys : List BillingEvent)
    → billed tenant period (xs ++ ys) ≡ billed tenant period xs + billed tenant period ys
unfolding billed
billed-append tenant period [] ys = omega arith
billed-append tenant period (e ∷ xs) ys = omega (arith, billed-append tenant period xs ys)

-- For every tenant and period the events bill as many calls as the counter counts.
abbrev pub Reconciled : Metering → Type 0
Reconciled db =
    (tenant period : String)
    → billed tenant period db.usage_events ≡ (get_usage db tenant period).calls

or_default_self : (d : String) → or_default (some d) d ≡ d
or_default_self d = ground arith

module _ (month_of : ℕ → String) (db : Metering) (tenant server tool source : String)
    (now : ℕ) where
  abbrev call_event : BillingEvent
  call_event = record {
    tenant_id = tenant;
    period = month_of now;
    kind = "calls";
    amount = 1;
    ts = now;
    server = server;
    tool = tool;
    source = source;
  }

  pub events-record_billable_call :
      (record_billable_call month_of db tenant server tool source now).usage_events
      ≡ db.usage_events ++ (call_event ∷ [])
  unfolding record_billable_call
  events-record_billable_call = rw (or_default_self (month_of now))

  pub usage-record_billable_call :
      (t p : String)
      → get_usage (record_billable_call month_of db tenant server tool source now) t p
        ≡ get_usage (record_usage db tenant (pos 1) (pos 0) (month_of now) now).1 t p
  unfolding record_billable_call get_usage
  usage-record_billable_call t p = refl

  billed-call_event :
      (t p : String)
      → billed t p (call_event ∷ []) ≡ (if (tenant == t) && (month_of now == p) then 1 else 0)
  unfolding billed
  billed-call_event t p = ground arith

  pub calls-record_billable_call :
      (t p : String)
      → (get_usage (record_billable_call month_of db tenant server tool source now) t p).calls
        ≡ (get_usage db t p).calls + (if (tenant == t) && (month_of now == p) then 1 else 0)
  calls-record_billable_call t p =
      rw (usage-record_billable_call t p)
        (calls-record_usage db tenant (month_of now) (pos 1) (pos 0) now t p)

  -- If for every tenant and month the billing events bill as many calls as the counter counts, they
  -- still do after a billable call.
  pub record_billable_call-Reconciled :
      Reconciled db → Reconciled (record_billable_call month_of db tenant server tool source now)
  record_billable_call-Reconciled h t p =
      rw
        (
          calls-record_billable_call t p,
          events-record_billable_call,
          billed-append t p db.usage_events (call_event ∷ []),
          billed-call_event t p,
        )
        (ap (λ n. n + (if (tenant == t) && (month_of now == p) then 1 else 0)) (h t p))

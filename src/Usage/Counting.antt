-- ===== src/Usage/Counting.antt =====
-- What the counters count, and when the quota lets a call through.
use m_gate.Prelude.{
  ==_refl, Bool-cases, Option, String, and_left, and_right, arith, clamp, eq_iff, false,
  if◌then◌else◌, inl, inr, lookup, lookup-insert, nat_beq, none, refl, some, ℕ, ℤ, ◌&&◌, ◌*◌, ◌+◌,
  ◌<◌, ◌==◌, ◌↔◌, ◌≡◌, ◌≤◌, ◌⊎◌, string_eq, nat_eq, pair_eq,
}
use m_gate.Settings.{Settings}
use m_gate.Usage.{
  Counter, Metering, Quota, Usage, check_quota, check_sandbox_preflight, get_effective_quota,
  get_usage, increment, record_usage, set_quota, usage_snapshot,
}

module _ (tenant period : String) (calls sandbox_ms now : ℕ) where
  snapshot-increment :
      (o : Option Counter)
      → let before = usage_snapshot o tenant period in
        let after = usage_snapshot (some (increment calls sandbox_ms now o)) tenant period in
        (after.calls ≡ before.calls + calls) × (after.sandbox_ms ≡ before.sandbox_ms + sandbox_ms)
  snapshot-increment none = ground arith
  snapshot-increment (some doc) = ground arith

module _ (db : Metering) (tenant period : String) (calls sandbox_ms : ℤ) (now : ℕ) where
  -- A record adds to its own counter exactly the calls and milliseconds that it says, negative
  -- amounts counting as 0, and returns what a read of the counter returns after it.
  pub get_usage-record_usage :
      let before = get_usage db tenant period in
      let after = get_usage (record_usage db tenant calls sandbox_ms period now).1 tenant period in
      (after.calls ≡ before.calls + clamp calls)
      × (after.sandbox_ms ≡ before.sandbox_ms + clamp sandbox_ms)
      × ((record_usage db tenant calls sandbox_ms period now).0 ≡ after)
  unfolding get_usage record_usage
  get_usage-record_usage =
      elim (Bool-cases (nat_beq (clamp calls) 0 && nat_beq (clamp sandbox_ms) 0)) [
        | inl e ↦ rw e (ground arith, ground arith, refl)
        | inr e ↦
            let (c, s) =
              snapshot-increment tenant period (clamp calls) (clamp sandbox_ms) now
                (lookup (tenant, period) db.usage_counters) in
            rw (e, lookup-insert, ==_refl {A = String × String} (tenant, period)) (c, s, refl)
      ]

  -- No other tenant's or period's counter moves.
  pub get_usage-record_usage_ne :
      (other_tenant other_period : String)
      → ((tenant == other_tenant) && (period == other_period)) ≡ false
      → get_usage (record_usage db tenant calls sandbox_ms period now).1 other_tenant other_period
        ≡ get_usage db other_tenant other_period
  unfolding get_usage record_usage
  get_usage-record_usage_ne other_tenant other_period h =
      elim (Bool-cases (nat_beq (clamp calls) 0 && nat_beq (clamp sandbox_ms) 0)) [
        | inl e ↦ rw e
        | inr e ↦ rw (e, lookup-insert, h)
      ]

module _ (db : Metering) (tenant period : String) (calls sandbox_ms : ℤ) (now : ℕ) where
  pub calls-record_usage :
      (t p : String)
      → (get_usage (record_usage db tenant calls sandbox_ms period now).1 t p).calls
        ≡ (get_usage db t p).calls + (if (tenant == t) && (period == p) then clamp calls else 0)
  calls-record_usage t p = elim (Bool-cases ((tenant == t) && (period == p))) [
    | inl e ↦
        let q : tenant ≡ t = (eq_iff tenant t).0 (and_left _ (period == p) e) in
        let r : period ≡ p = (eq_iff period p).0 (and_right (tenant == t) _ e) in
        rw (e, ← q, ← r) (get_usage-record_usage db tenant period calls sandbox_ms now).0
    | inr e ↦
        rw (e, get_usage-record_usage_ne db tenant period calls sandbox_ms now t p e) (omega arith)
  ]

  pub events-record_usage :
      (record_usage db tenant calls sandbox_ms period now).1.usage_events ≡ db.usage_events
  unfolding record_usage
  events-record_usage = ground arith

-- When a call may go on: each limit that is set lies above what was used.
abbrev pub Within : Usage → Quota → Type 0
Within usage quota =
    ((quota.calls_limit ≡ 0) ⊎ (usage.calls < quota.calls_limit))
    × ((quota.sandbox_seconds_limit ≡ 0) ⊎ (usage.sandbox_ms < quota.sandbox_seconds_limit * 1000))

-- The quota check lets a call go on exactly if each limit that is not 0 lies strictly above what
-- was used.
pub check_quota-Within :
    (settings : Settings) (db : Metering) (tenant period : String)
    → let usage = get_usage db tenant period in
      let quota = get_effective_quota settings db tenant in
      ((check_quota settings db tenant period).0 ≡ none) ↔ Within usage quota
unfolding check_quota
check_quota-Within settings db tenant period = ground arith

-- The preflight lets a run start exactly if there is no sandbox limit or the worst case, a negative
-- one counting as 0, fits into what is left of it.
pub check_sandbox_preflight-fits :
    (usage : Usage) (quota : Quota) (projected_ms : ℤ)
    → (check_sandbox_preflight usage quota projected_ms ≡ none) ↔ (
        (quota.sandbox_seconds_limit ≡ 0)
        ⊎ (usage.sandbox_ms + clamp projected_ms ≤ quota.sandbox_seconds_limit * 1000))
unfolding check_sandbox_preflight
check_sandbox_preflight-fits usage quota projected_ms = ground arith

-- A quota that was set is the one in force, and the one that the setter returned.
pub get_effective_quota-set_quota :
    (settings : Settings) (db : Metering) (tenant : String) (calls sandbox_seconds : ℤ)
    (updated_by : Option String) (now : ℕ)
    → get_effective_quota settings
        (set_quota db tenant calls sandbox_seconds updated_by now).1
        tenant
      ≡ (set_quota db tenant calls sandbox_seconds updated_by now).0
unfolding get_effective_quota set_quota
get_effective_quota-set_quota settings db tenant calls sandbox_seconds updated_by now =
    rw (lookup-insert, ==_refl tenant)

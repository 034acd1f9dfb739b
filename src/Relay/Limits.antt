-- ===== src/Relay/Limits.antt =====
-- services/remote-relay/src/store.ts: the constructor of InMemoryRelayStore, which fills in the
-- default limits and refuses those out of range. A number that is not a safe integer is too large.
use avity_os.Base.{
  ℕ, ◌*◌, ◌≤◌, ◌≡◌, subst, Bool, false, ◌||◌, not, Option, if◌then◌else◌, ltb, leb, or_else,
  Bool-cases, inl, inr, arith,
}

pub record Options : Type 0 where
  pub ttl_ms : Option ℕ
  pub max_items_per_inbox : Option ℕ
  pub max_total_items : Option ℕ
  pub max_bytes_per_inbox : Option ℕ
  pub max_total_bytes : Option ℕ
  pub max_inbox_states : Option ℕ
  pub max_seen_messages : Option ℕ
  pub max_waiters : Option ℕ

pub record Limits : Type 0 where
  pub ttl_ms : ℕ
  pub max_items_per_inbox : ℕ
  pub max_total_items : ℕ
  pub max_bytes_per_inbox : ℕ
  pub max_total_bytes : ℕ
  pub max_inbox_states : ℕ
  pub max_seen_messages : ℕ
  pub max_waiters : ℕ

abbrev pub max_safe_integer : ℕ
max_safe_integer = 9007199254740991

pub data OptionError : Type 0 where
  ttl_range inbox_range total_range inbox_bytes_range total_bytes_range : OptionError
  inbox_states_range seen_range waiters_range : OptionError

pub data Configured : Type 0 where
  configured : Limits → Configured
  refused : OptionError → Configured

-- `!Number.isSafeInteger(n) || n < low || n > high`
abbrev outside : ℕ → ℕ → ℕ → Bool
outside n low high = not (leb n max_safe_integer) || ltb n low || ltb high n

with_defaults : Options → Limits
with_defaults o = record {
  ttl_ms = or_else o.ttl_ms (7 * 24 * 60 * 60000);
  max_items_per_inbox = or_else o.max_items_per_inbox 100;
  max_total_items = or_else o.max_total_items 10000;
  max_bytes_per_inbox = or_else o.max_bytes_per_inbox (32 * 1024 * 1024);
  max_total_bytes = or_else o.max_total_bytes (256 * 1024 * 1024);
  max_inbox_states = or_else o.max_inbox_states 10000;
  max_seen_messages = or_else o.max_seen_messages 100000;
  max_waiters = or_else o.max_waiters 1000;
}

validate : Limits → Configured
validate l =
    if outside l.ttl_ms 1000 (30 * 24 * 60 * 60000)
    then refused ttl_range
    else if outside l.max_items_per_inbox 1 100000
    then refused inbox_range
    else if outside l.max_total_items l.max_items_per_inbox 1000000
    then refused total_range
    else if outside l.max_bytes_per_inbox 1024 (1024 * 1024 * 1024)
    then refused inbox_bytes_range
    else if outside l.max_total_bytes l.max_bytes_per_inbox (4 * 1024 * 1024 * 1024)
    then refused total_bytes_range
    else if outside l.max_inbox_states 1 100000
    then refused inbox_states_range
    else if outside l.max_seen_messages 1 2000000
    then refused seen_range
    else if outside l.max_waiters 1 100000
    then refused waiters_range
    else configured l

unfoldable pub configure : Options → Configured
unfolding with_defaults validate
configure o = validate (with_defaults o)

-- Limits that leave room for one envelope, one inbox and one waiter.
pub record IsUsable (l : Limits) : Type 0 where
  pub ttl_bounds : (1000 ≤ l.ttl_ms) × (l.ttl_ms ≤ 30 * 24 * 60 * 60000)
  pub one_item : 1 ≤ l.max_items_per_inbox
  pub total_covers : l.max_items_per_inbox ≤ l.max_total_items
  pub one_kib : 1024 ≤ l.max_bytes_per_inbox
  pub bytes_cover : l.max_bytes_per_inbox ≤ l.max_total_bytes
  pub one_state : 1 ≤ l.max_inbox_states
  pub one_message : 1 ≤ l.max_seen_messages
  pub one_waiter : 1 ≤ l.max_waiters

module _ {l : Limits} where
  -- A check that was passed.
  passed :
      (b : Bool) (e : OptionError) (next : Configured)
      → (if b then refused e else next) ≡ configured l
      → (b ≡ false) × (next ≡ configured l)
  passed b e next h = elim (Bool-cases b) [
    | inl failed ↦ ground (arith, h, failed)
    | inr ok ↦ (ok, rw ok at h)
  ]

configured_injective : {m l : Limits} → configured m ≡ configured l → m ≡ l
configured_injective {m} {l} h = cc

within : (n low high : ℕ) → outside n low high ≡ false → (low ≤ n) × (n ≤ high)
within n low high h = ground arith

validate-IsUsable : (m l : Limits) → validate m ≡ configured l → IsUsable m × (m ≡ l)
unfolding validate
validate-IsUsable m l h =
    let ttl = passed (outside m.ttl_ms 1000 (30 * 24 * 60 * 60000)) ttl_range _ h in
    let item = passed (outside m.max_items_per_inbox 1 100000) inbox_range _ ttl.1 in
    let total =
      passed (outside m.max_total_items m.max_items_per_inbox 1000000) total_range _ item.1 in
    let inbox_bytes =
      passed (outside m.max_bytes_per_inbox 1024 (1024 * 1024 * 1024)) inbox_bytes_range _
        total.1 in
    let bytes =
      passed (outside m.max_total_bytes m.max_bytes_per_inbox (4 * 1024 * 1024 * 1024))
        total_bytes_range _ inbox_bytes.1 in
    let states = passed (outside m.max_inbox_states 1 100000) inbox_states_range _ bytes.1 in
    let seen = passed (outside m.max_seen_messages 1 2000000) seen_range _ states.1 in
    let waiters = passed (outside m.max_waiters 1 100000) waiters_range _ seen.1 in
    (
      record {
        ttl_bounds = within _ _ _ ttl.0;
        one_item = (within _ _ _ item.0).0;
        total_covers = (within _ _ _ total.0).0;
        one_kib = (within _ _ _ inbox_bytes.0).0;
        bytes_cover = (within _ _ _ bytes.0).0;
        one_state = (within _ _ _ states.0).0;
        one_message = (within _ _ _ seen.0).0;
        one_waiter = (within _ _ _ waiters.0).0;
      },
      configured_injective waiters.1,
    )

-- A relay that is constructed has limits under which every part has room for at least one entry,
-- the totals cover one full inbox, and envelopes live from a second to 30 days.
configure-IsUsable : (o : Options) (l : Limits) → configure o ≡ configured l → IsUsable l
unfolding configure
configure-IsUsable o l e =
    let (usable, same) = validate-IsUsable (with_defaults o) l e in subst IsUsable same usable

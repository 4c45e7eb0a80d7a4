-- ===== src/Usage/Defs.antt =====
-- internal/usage/usage.go. The maps are keyed by e-mail address; `ensureUser`, which replaces a nil
-- map by an empty one, is the identity on lists. The map of raw counters is walked in some order.
use zeroone.Prelude.{String, ◌||◌, List, [], ◌∷◌, if◌then◌else◌}
use zeroone.Prelude.Int.{ℤ, pos, ltb_ℤ, ◌+ℤ◌, ◌-ℤ◌}
use zeroone.Prelude.Assoc.{get_or, insert}

pub record Pair : Type 0 where
  pub uplink : ℤ
  pub downlink : ℤ

pub record PeriodMeta : Type 0 where
  pub daily_reset_at : ℤ
  pub weekly_reset_at : ℤ
  pub monthly_reset_at : ℤ

abbrev pub Pairs : Type 0
Pairs = List (String × Pair)

pub record UserState : Type 0 where
  pub totals : Pairs
  pub last_raw : Pairs
  pub daily : Pairs
  pub weekly : Pairs
  pub monthly : Pairs
  pub periods : List (String × PeriodMeta)
  pub updated_at : ℤ

abbrev pub no_pair : Pair
no_pair = record { uplink = pos 0; downlink = pos 0 }

abbrev pub no_meta : PeriodMeta
no_meta = record { daily_reset_at = pos 0; weekly_reset_at = pos 0; monthly_reset_at = pos 0 }

abbrev pub pair_of : String → Pairs → Pair
pair_of = get_or no_pair

-- A counter that fell was reset: then all of it is new.
unfoldable pub delta : ℤ → ℤ → ℤ
delta cur last = let d = cur -ℤ last in if ltb_ℤ d (pos 0) then cur else d

abbrev pub add_positive : ℤ → ℤ → ℤ
add_positive n d = if ltb_ℤ (pos 0) d then n +ℤ d else n

unfoldable pub add_pair : Pair → ℤ → ℤ → Pair
add_pair p du dd = record {
  uplink = add_positive p.uplink du;
  downlink = add_positive p.downlink dd;
}

unfoldable pub credit : String → ℤ → ℤ → Pairs → Pairs
credit email du dd m = insert email (add_pair (pair_of email m) du dd) m

-- The body of the loop of `SyncUsers`.
unfoldable pub credit_user : UserState → String → ℤ → ℤ → UserState
credit_user st email du dd =
    if ltb_ℤ (pos 0) du || ltb_ℤ (pos 0) dd
    then record st {
      totals = credit email du dd st.totals;
      daily = credit email du dd st.daily;
      weekly = credit email du dd st.weekly;
      monthly = credit email du dd st.monthly;
    }
    else st

unfoldable pub sync_user : UserState → String → Pair → UserState
sync_user st email cur =
    let last = pair_of email st.last_raw in
    let next =
      credit_user st email (delta cur.uplink last.uplink) (delta cur.downlink last.downlink) in
    record next { last_raw = insert email cur next.last_raw }

unfoldable pub sync_all : UserState → Pairs → UserState
sync_all st [] = st
sync_all st ((email, cur) ∷ raw) = sync_all (sync_user st email cur) raw

-- `SyncUsers`
unfoldable pub sync_users : UserState → Pairs → ℤ → UserState
sync_users st raw now = record (sync_all st raw) { updated_at = now }

zero_known : List String → Pairs → UserState → UserState
zero_known [] raw st = st
zero_known (email ∷ known) raw st = zero_known known raw (record st {
  totals = insert email no_pair st.totals;
  last_raw = insert email (pair_of email raw) st.last_raw;
})

zero_raw : Pairs → UserState → UserState
zero_raw [] st = st
zero_raw ((email, cur) ∷ raw) st =
    zero_raw raw (record st {
      totals = insert email no_pair st.totals;
      last_raw = insert email cur st.last_raw;
    })

-- `ResetUsers`
unfoldable pub reset_users : Pairs → List String → ℤ → UserState
unfolding zero_known zero_raw
reset_users raw known now = zero_raw raw (
    zero_known known raw (record {
      totals = [];
      last_raw = [];
      daily = [];
      weekly = [];
      monthly = [];
      periods = [];
      updated_at = now;
    }))

-- ===== src/Api/Store.antt =====
-- The configuration of a running server and the configuration file (internal/api/server.go,
-- internal/stack/config.go). The file holds a configuration, or nothing that can be read as one;
-- writing it succeeds.
use zeroone.Prelude.{String, Bool, true, false, Option, none, some, if◌then◌else◌}
use zeroone.Prelude.Int.{ℤ}
use zeroone.Prelude.Result.{ok, err}
use zeroone.Stack.{Config}
use zeroone.Stack.Validate.{validate}

-- `cfg` of `Server`, and the file at its `configPath`.
pub record Server : Type 0 where
  pub cfg : Config
  pub disk : Option Config

-- A 200 answer, or an error's status code.
pub data Reply : Type 0 where
  done : Reply
  failed : (code : ℤ) → Reply

abbrev pub with_cfg : Server → Config → Server
with_cfg s c = record s { cfg = c }

module _ (is_cidr : String → Bool) where
  unfoldable pub is_valid : Config → Bool
  is_valid c = elim (validate is_cidr c) [ err e ↦ false | ok valid ↦ true ]

  -- `stack.Load`; `none` stands for its errors.
  unfoldable pub load : Server → Option Config
  load s = elim s.disk [ none ↦ none | some c ↦ if is_valid c then some c else none ]

  -- `stack.Save`: whether it succeeds.
  unfoldable pub save_config : Server → Config → Server × Bool
  save_config s c = if is_valid c then (record s { disk = some c }, true) else (s, false)

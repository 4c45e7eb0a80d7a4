-- ===== src/Tests/Api.antt =====
-- Examples of the theorems on the requests to the panel.
use zeroone.Prelude.{
  ◌≡◌, ◌⊎◌, refl, ap, String, Bool, true, Option, some, none, List, [], ◌∷◌, append_text,
}
use zeroone.Prelude.Int.{ℤ, pos}
use zeroone.Prelude.Result.{ok}
use zeroone.Stack.{Config}
use zeroone.Stack.Rules.{net_split_host_port}
use zeroone.Stack.Mutate.Domains.{
  normalize_domain_rule, known_prefix, host_rule, is_hostname, is_alnum,
}
use zeroone.Stack.Text.{split_at, strip_prefix, trim_space, is_space}
use zeroone.Stack.Validate.{validate, check_required}
use zeroone.Stack.Session.Calls.{Call, call}
use zeroone.Stack.Session.Calls
use zeroone.Auth.Bearer.{is_known, bearer_token, lookup_hash}
use zeroone.Api.Gate.{
  Request, serve, is_public, is_guarded, creates_first_admin, session_from_request, token_auth,
  InSession, HasToken, InBootstrap, token_auth-serves,
}
use zeroone.Api.Store.{Server, done, load, is_valid}
use zeroone.Api.Handlers.{with_tokens, token_delete}
use zeroone.Api.Actions.{Action, login, act, acts}
use zeroone.Api.Actions
use zeroone.Api.Users.{Change, asked}
use zeroone.Api.Users
use zeroone.Api.Safe.{AllSound, IsSafe, acts-Safe}
use zeroone.Api.Settings.{held, roll_back, restore}
use zeroone.Api.Locked.{locked-acts}
use zeroone.Api.Reopened.{token_auth-roll_back}
use zeroone.Api.Agree.{act-Agrees, change_overwrites}
use zeroone.Tests.Samples.{sample, sample_cidr, same_case}
use zeroone.Tests.Stack.{sample_valid, sample-IsStaffed, ban_succeeds, unmanned, unmanned_valid}

-- A configuration with the token "abc".
abbrev with_token : Config
with_token =
    with_tokens sample
      (record { id = "ci"; hash = "abc"; scope = ""; created_at = pos 0; last_used = pos 0 } ∷ [])

abbrev server : Server
server = record { cfg = sample; disk = some with_token }

token-valid : validate sample_cidr with_token ≡ ok tt
unfolding validate check_required
token-valid = sample_valid

server-IsSafe : IsSafe sample_cidr server
unfolding is_valid
server-IsSafe = record {
  file = with_token;
  written = refl;
  valid = rw (token-valid, is_valid);
  file_staffed = sample-IsStaffed;
  memory_staffed = sample-IsStaffed;
}

abbrev get_users : Request
get_users = record {
  method = "POST";
  path = "/api/users";
  authorization = "Bearer abc";
  cookie = none;
  remote_addr = "192.0.2.7:5000";
}

abbrev same : String → String
same s = s

abbrev never : String → Option Bool
never s = none

served : token_auth append_text some same never get_users (some with_token) 7 ≡ serve "abc"
unfolding token_auth is_guarded is_public session_from_request lookup_hash bearer_token is_known
    strip_prefix trim_space is_space
served = refl

token_auth-serves_example :
    (c : Config) × (some with_token ≡ some c)
    × (InSession append_text some same never get_users c 7
        ⊎ (HasToken append_text some same never get_users c
            ⊎ InBootstrap append_text some same never get_users c))
unfolding is_guarded is_public strip_prefix
token_auth-serves_example =
    token_auth-serves append_text some same never get_users (some with_token) 7 "abc" refl served

-- A log-in without a password, the deletion of no token, and the return to a snapshot.
abbrev tries : List Action
tries =
    Actions.log_in "root" "" none 5
    ∷ Actions.delete_token ""
    ∷ Actions.roll_back true "s1" (held (some with_token) true)
    ∷ []

tries_sound : AllSound sample_cidr tries
unfolding is_valid
tries_sound = (tt, (tt, ((rw (token-valid, is_valid), sample-IsStaffed), tt)))

abbrev any_password : String → String → Bool
any_password password hash = true

abbrev run : List Action → Server → Server
run as' s = acts sample_cidr same_case any_password append_text same as' s

acts-Safe_example : IsSafe sample_cidr (run tries server)
acts-Safe_example =
    acts-Safe sample_cidr same_case any_password append_text same tries server tries_sound
      server-IsSafe

tried : load sample_cidr (run tries server) ≡ some with_token
unfolding acts act login token_delete roll_back restore trim_space is_space load is_valid
tried = rw (token-valid, is_valid)

served_later :
    token_auth append_text some same never get_users (load sample_cidr (run tries server)) 7
    ≡ serve "abc"
served_later = rw tried served

locked-acts_example :
    (c : Config) × (load sample_cidr (run tries server) ≡ some c)
    × (InSession append_text some same never get_users c 7
        ⊎ HasToken append_text some same never get_users c)
unfolding is_guarded is_public strip_prefix
locked-acts_example =
    locked-acts sample_cidr same_case any_password append_text same some same never tries server
      get_users 7 "abc" tries_sound server-IsSafe refl served_later

abbrev ban : Call
ban = Calls.ban_user "bob" (pos 7)

abbrev later : ℤ → ℤ
later minutes = pos 7

abbrev ban_request : Change
ban_request = Users.ban_user "bob" (pos 0)

change_overwrites_example :
    act sample_cidr same_case any_password append_text same
      (Actions.change later ban_request)
      server
    ≡ (
      record {
        cfg = (call sample_cidr same_case sample ban).0;
        disk = some (call sample_cidr same_case sample ban).0;
      },
      done,
    )
unfolding asked
change_overwrites_example =
    change_overwrites sample_cidr same_case any_password append_text same later ban_request
      (pos 400) ban server refl ban_succeeds

banned :
    (act sample_cidr same_case any_password append_text same
      (Actions.change later ban_request)
      server).1
    ≡ done
unfolding asked
banned =
    ap (λ answer. answer.1)
      (change_overwrites sample_cidr same_case any_password append_text same later ban_request
        (pos 400) ban server refl ban_succeeds)

act-Agrees_example :
    ((act sample_cidr same_case any_password append_text same
        (Actions.change later ban_request)
        server).0.disk
      ≡ some
          (act sample_cidr same_case any_password append_text same
            (Actions.change later ban_request)
            server).0.cfg)
    × (is_valid sample_cidr
          (act sample_cidr same_case any_password append_text same
            (Actions.change later ban_request)
            server).0.cfg
        ≡ true)
act-Agrees_example =
    act-Agrees sample_cidr same_case any_password append_text same
      (Actions.change later ban_request) server refl banned

-- What `NormalizeDomainRule` makes of some inputs.
cleaned : normalize_domain_rule same " https://geroogo.com:80/a?b " ≡ some "geroogo.com"
unfolding normalize_domain_rule known_prefix host_rule is_hostname is_alnum trim_space is_space
    strip_prefix split_at net_split_host_port
cleaned = refl

kept_rule : normalize_domain_rule same "  full: a.b" ≡ some "full:a.b"
unfolding normalize_domain_rule known_prefix trim_space is_space strip_prefix
kept_rule = refl

not_cleaned : normalize_domain_rule same "single" ≡ none
unfolding normalize_domain_rule known_prefix host_rule is_hostname is_alnum trim_space is_space
    strip_prefix split_at net_split_host_port
not_cleaned = refl

-- A request for the first administrator from afar.
abbrev first_admin : Request
first_admin = record {
  method = "POST";
  path = "/api/admins";
  authorization = "";
  cookie = none;
  remote_addr = "192.0.2.7:5000";
}

unmanned_passes : is_valid sample_cidr unmanned ≡ true
unfolding is_valid
unmanned_passes = rw (unmanned_valid, is_valid)

token_auth-roll_back_example :
    token_auth append_text some same never first_admin
      (load sample_cidr (roll_back true "s0" (held (some unmanned) true) server).0)
      7
    ≡ serve ""
unfolding is_guarded is_public creates_first_admin bearer_token strip_prefix
token_auth-roll_back_example =
    token_auth-roll_back sample_cidr append_text some same never "s0" unmanned true server
      first_admin 7 (λ h. cc) unmanned_passes refl refl refl refl refl

-- ===== src/Tests/Plugins.antt =====
-- Examples of the theorems on the requests for the relay and the SNI spoof.
use zeroone.Prelude.{
  ◌≡◌, false, ◌⊎◌, refl, arith, String, true, some, none, Option, Bool, List, [], ◌∷◌, str_eq,
  str_eq_iff,
}
use zeroone.Prelude.Int.{ℤ}
use zeroone.Stack.{RelaySite}
use zeroone.Stack.Mutate.Outcome.{any_of}
use zeroone.Api.Store.{Server, done, failed, is_valid}
use zeroone.Api.Plugins.{SiteChange, PluginChange, change_plugin, change_plugins}
use zeroone.Api.Plugins
use zeroone.Api.Undone.{change_plugin-settles}
use zeroone.Api.SiteNames.{IsDistinct}
use zeroone.Api.Tidy.{AreTidy, change_plugins-Tidy}
use zeroone.Plugins.Child.{
  Turn, turn, turns, with_config, spawn, write_config, start_child, stop_child, end_wait,
  effective_paths, append_log, over, reload, Ending, obeys, killed, idle_manager,
}
use zeroone.Prelude.Json.{Object}
use zeroone.Plugins.Listen.{split_listen}
use zeroone.Plugins.Wanted.{Fits, turns-Fits}
use zeroone.Plugins.Relay.{render_config, render_parts, deployment_ids, push_all, push}
use zeroone.Stack.Text.{trim_space, is_space, strip_prefix, cut_last, atoi}
use zeroone.Stack.Rules.{split_host_port, contains}
use zeroone.Stack.Effective.{relay_listen}
use zeroone.Tests.Samples.{sample, sample_cidr}

abbrev server : Server
server = record { cfg = sample; disk = some sample }

abbrev site : String → RelaySite
site domain = record { domain = domain; enabled = true; note = "" }

-- The same site twice, and one that is not there.
abbrev requests : List PluginChange
requests =
    Plugins.relay_sites (Plugins.add_site (site " a.org"))
    ∷ Plugins.relay_sites (Plugins.add_site (site "a.org"))
    ∷ Plugins.spoof_sites (Plugins.delete_site "b.org")
    ∷ []

change_plugin-settles_example :
    (((change_plugin sample_cidr str_eq
          (Plugins.spoof_sites (Plugins.delete_site "b.org"))
          server).1
        ≡ done)
      × ((change_plugin sample_cidr str_eq
            (Plugins.spoof_sites (Plugins.delete_site "b.org"))
            server).0.disk
          ≡ some
              (change_plugin sample_cidr str_eq
                (Plugins.spoof_sites (Plugins.delete_site "b.org"))
                server).0.cfg)
      × (is_valid sample_cidr
            (change_plugin sample_cidr str_eq
              (Plugins.spoof_sites (Plugins.delete_site "b.org"))
              server).0.cfg
          ≡ true))
    ⊎ ((code : ℤ) × ((change_plugin sample_cidr str_eq
            (Plugins.spoof_sites (Plugins.delete_site "b.org"))
            server).1
          ≡ failed code)
        × ((change_plugin sample_cidr str_eq
              (Plugins.spoof_sites (Plugins.delete_site "b.org"))
              server).0
            ≡ server))
change_plugin-settles_example =
    change_plugin-settles sample_cidr str_eq (Plugins.spoof_sites (Plugins.delete_site "b.org"))
      server

swapped : (a b : String) → str_eq a b ≡ str_eq b a
swapped a b = ground (arith, str_eq_iff a b, str_eq_iff b a)

carried : (a b c : String) → str_eq a b ≡ true → str_eq a c ≡ str_eq b c
carried a b c h = let same : a ≡ b = (str_eq_iff a b).0 h in rw same refl

sample-AreTidy : AreTidy sample_cidr str_eq sample
unfolding IsDistinct any_of
sample-AreTidy = (tt, (refl, tt))

change_plugins-Tidy_example :
    AreTidy sample_cidr str_eq (change_plugins sample_cidr str_eq requests server).cfg
change_plugins-Tidy_example =
    change_plugins-Tidy sample_cidr str_eq swapped carried requests server sample-AreTidy

-- A configuration with the relay switched on and ready, and one that cannot be loaded.
abbrev on_turn : Turn
on_turn = record {
  config =
      some (record (sample.relay) { enabled = true; auth_key = "k"; deployment_ids = "AK" ∷ [] });
  found = λ binary. true;
  writes = true;
  starts = true;
  stop = obeys;
}

abbrev lost : Turn
lost = record on_turn { config = none }

abbrev no_path : String → Option String
no_path s = none

abbrev rounds : List (Turn × Ending)
rounds = (lost, over) ∷ (on_turn, reload killed) ∷ []

abbrev any_child : Option Object → Bool
any_child none = false
any_child (some o) = true

-- The child runs in the end, for the second time.
runs : any_child (turn no_path on_turn (turns no_path rounds idle_manager)).0.child ≡ true
unfolding turns turn with_config spawn write_config render_config render_parts deployment_ids
    push_all push start_child stop_child end_wait effective_paths append_log relay_listen
    split_host_port trim_space contains strip_prefix cut_last atoi is_space split_listen
runs = refl

turns-Fits_example : Fits no_path on_turn (turn no_path on_turn (turns no_path rounds idle_manager))
turns-Fits_example = turns-Fits no_path rounds on_turn (tt, (tt, tt))

-- ===== src/Tests/Subscription.antt =====
-- Examples of the theorems on the subscriptions.
use zeroone.Prelude.{◌≡◌, refl, ◌≤◌, String, true, Option, some, List, [], ◌∷◌, length, arith}
use zeroone.Prelude.Int.{pos}
use zeroone.Prelude.Json.{Object, get, str, number}
use zeroone.Stack.Rules.{contains}
use zeroone.Xray.Clients.{clients_in}
use zeroone.Xray.Inbounds.{inbounds, limited_inbound}
use zeroone.Xray.Ports.{port_of}
use zeroone.Links.Make.{vless}
use zeroone.Links.Reach.{Among, here, path_of, first_target}
use zeroone.Subscription.Encode.{Url, sing_box_outbounds}
use zeroone.Subscription.Names.{
  AllPlain, starts_sharp, ends_sharp, safe_attachment_name, safe_attachment_name-Plain,
}
use zeroone.Subscription.First.{url_parts, outbound_path, sing_box_outbounds-first}
use zeroone.Tests.Samples.{sample}
use zeroone.Tests.Manager.{texts, ann}

-- A stand-in for `url.Parse` that reads every address as that of the first link.
abbrev parse_first : String → Option Url
parse_first s = some (url_parts texts sample ann (first_target sample ann))

first_port : port_of (first_target sample ann) ≡ pos 21000
unfolding first_target port_of limited_inbound
first_port = refl

sing_box_outbounds-first_example :
    (ob : Object) × (more : List Object) × (o : Object) × (sing_box_outbounds parse_first
        (vless texts sample ann)
      ≡ ob ∷ more)
    × Among o (inbounds sample)
    × (contains "ann" (clients_in o) ≡ true)
    × (get "uuid" ob ≡ some (str ann.uuid))
    × (get "server" ob ≡ some (str sample.server.public_ip))
    × (get "server_port" ob ≡ some (number (port_of o)))
    × (outbound_path ob ≡ path_of o)
sing_box_outbounds-first_example =
    sing_box_outbounds-first parse_first texts sample ann here refl (rw first_port (omega arith))
      (rw first_port (omega arith)) refl

-- "../a b"
safe_attachment_name-Plain_example :
    let r = safe_attachment_name (b'.' ∷ b'.' ∷ b'/' ∷ b'a' ∷ b' ' ∷ b'b' ∷ []) in
    AllPlain r × (1 ≤ length r) × (length r ≤ 80) × (starts_sharp r ≡ true) × (ends_sharp r ≡ true)
safe_attachment_name-Plain_example =
    safe_attachment_name-Plain (b'.' ∷ b'.' ∷ b'/' ∷ b'a' ∷ b' ' ∷ b'b' ∷ [])

-- ===== src/Links/Names.antt =====
-- The names and the parameters of a share link (internal/links/links.go). `to_lower`, `to_upper` and
-- `title` stand for Go's functions on the letters' cases.
use Prim.Native.Char.{Char, code}
use zeroone.Prelude.{
  String, Bool, true, false, ◌||◌, Option, none, some, List, [], ◌∷◌, ◌==◌, str_eq, is_empty,
  append_text, if◌then◌else◌,
}
use zeroone.Prelude.Json.{Json, object, Object, empty, put_some}
use zeroone.Stack.{XhttpClientExtra, XmuxSettings}
use zeroone.Stack.Text.{cons, trim_space}
use zeroone.Xray.Inbounds.{range_or_int, positive, set_flag}

pub record Link : Type 0 where
  pub name : String
  pub url : String

abbrev is_separator : Char → Bool
is_separator c = code c == b'-' || code c == b'_' || code c == b' '

add_head : Char → List String → List String
add_head c [] = cons c String.[] ∷ []
add_head c (w ∷ ws) = cons c w ∷ ws

pieces : String → List String
unfolding add_head
pieces String.[] = String.[] ∷ []
pieces (String.◌∷◌ c s) =
    let rest = pieces s in if is_separator c then String.[] ∷ rest else add_head c rest

drop_empty : List String → List String
drop_empty [] = []
drop_empty (w ∷ ws) = let rest = drop_empty ws in if is_empty w then rest else w ∷ rest

-- `strings.Join(words, " ")`
join : List String → String
join [] = ""
join (w ∷ []) = w
join (w ∷ v ∷ ws) = append_text w (append_text " " (join (v ∷ ws)))

-- The texts one behind the other, as `fmt.Sprintf` puts them.
unfoldable pub concat : List String → String
concat [] = ""
concat (s ∷ ss) = append_text s (concat ss)

abbrev pub no_object : Object → Bool
no_object empty = true
no_object _ = false

module _ (to_lower to_upper : String → String) (title : Char → Char) where
  capital : String → String
  capital String.[] = String.[]
  capital (String.◌∷◌ c s) = cons (title c) s

  pretty_word : String → String
  unfolding capital
  pretty_word t =
      let lower = to_lower t in
      if str_eq lower "ws"
      then "WS"
      else if str_eq lower "xhttp"
      then "XHTTP"
      else if str_eq lower "splithttp"
      then "SplitHTTP"
      else if str_eq lower "tcp" || str_eq lower "tls" || str_eq lower "udp" || str_eq lower "http"
      then to_upper lower
      else capital lower

  pretty_words : List String → List String
  unfolding pretty_word
  pretty_words [] = []
  pretty_words (w ∷ ws) = pretty_word w ∷ pretty_words ws

  -- `prettifyName`
  unfoldable pub prettify_name : String → String
  unfolding pretty_words drop_empty pieces join
  prettify_name s = if is_empty s then s else join (pretty_words (drop_empty (pieces s)))

  name_parts : List String → String
  unfolding prettify_name
  name_parts [] = ""
  name_parts (p ∷ ps) =
      let rest = name_parts ps in
      if is_empty (trim_space p)
      then rest
      else append_text " · " (append_text (prettify_name (trim_space p)) rest)

  -- `linkName`
  unfoldable pub link_name : List String → String
  unfolding name_parts
  link_name parts = append_text "ZeroOne" (name_parts parts)

xmux_object : XmuxSettings → Object
xmux_object m = put_some "hMaxRequestTimes" (positive m.h_max_request_times) (
    put_some "cMaxLifetimeMs" (positive m.c_max_lifetime_ms) (
      put_some "cMaxReuseTimes" (positive m.c_max_reuse_times) (
        put_some "maxConnections" (range_or_int m.max_connections)
          (put_some "maxConcurrency" (range_or_int m.max_concurrency) empty))))

xmux_field : Option XmuxSettings → Option Json
unfolding xmux_object
xmux_field none = none
xmux_field (some m) = if no_object (xmux_object m) then none else some (object (xmux_object m))

unfoldable pub extra_object : XhttpClientExtra → Object
unfolding xmux_field
extra_object e = put_some "xmux" (xmux_field e.xmux) (
    put_some "noGRPCHeader" (set_flag e.no_grpc_header) (
      put_some "noSSEHeader" (set_flag e.no_sse_header)
        (put_some "xPaddingBytes" (range_or_int e.x_padding_bytes) empty)))

-- ===== src/Tests/Configs.antt =====
-- The theorems on the configuration and the listening servers at concrete inputs, with a small type
-- of JSON values.
use f.Prelude.{
  ℕ, zero, suc, ◌≡◌, ◌≢◌, ◌↔◌, ◌⊎◌, refl, Bool, true, false, Option, none, some, List, [], ◌∷◌, map,
  if◌then◌else◌,
}
use f.Bytes.{Bytes, codes, equal, has_dotdot}
use f.Config.{
  read_protocols, protocols_of, protocol_from_string, client_certificate_of, read_ssl,
  add_locations,
}
use f.Connection.{plain, deliver}
use f.Connection.Stream.{reading_connection}
use f.Json.{Result, ok, throw, json_error, JsonApi}
use f.Main.{Exit, finished, threw}
use f.Main.{Instance, build_server, build_servers}
use f.Listen.{AsioApi, listen, call_all, call_contexts}
use f.Config.{routes, settings_of, source_of, locations_of}
use f.Main.Places.{
  Place, place_entry, places, add_all, add_locations-deliver, add_locations-IsLongest,
}
use f.Main.Settings.{Has, IsListed, read_ssl-verifies, read_ssl-Has}
use f.Reply.{not_found, stock_reply}
use f.Router.{route, is_refused}
use f.Router.Dispatch.{IsLongest}
use f.Router.Sorted.{insertion_sort, insertion_sort-IsSort}
use f.Tls
use f.Tls.{ℤ, SslSettings, insert_proto, has_proto, default_protocols, context_calls}
use f.Tls.Verify.{verifies}
use f.Url.{url_decode, decode_from}
use f.Tests.Replies.{site, leaky, leaky-AgreeInside, hello_request}
use f.Tests.Serving.{pieces}

mutual
  pub data Value : Type 0 where
    text : Bytes → Value
    flag : Bool → Value
    number : ℤ → Value
    array : Elements → Value
    object : Members → Value

  pub data Elements : Type 0 where
    no_element : Elements
    element : Value → Elements → Elements

  pub data Members : Type 0 where
    no_member : Members
    member : Bytes → Value → Members → Members

abbrev find_member : Members → Bytes → Option Value
find_member no_member key = none
find_member (member k v ms) key = if equal k key then some v else find_member ms key

abbrev find : Value → Bytes → Option Value
find (object ms) key = find_member ms key
find _ key = none

abbrev as_text : Value → Result Bytes
as_text (text s) = ok s
as_text _ = throw json_error

abbrev as_flag : Value → Result Bool
as_flag (flag b) = ok b
as_flag _ = throw json_error

abbrev as_number : Value → Result ℤ
as_number (number n) = ok n
as_number _ = throw json_error

abbrev default_or : {A : Type 0} → (Value → Result A) → Option Value → A → Result A
default_or read none default = ok default
default_or read (some v) default = read v

abbrev list_of : Elements → List Value
list_of no_element = []
list_of (element v vs) = v ∷ list_of vs

abbrev elements_of : Value → List Value
elements_of (array vs) = list_of vs
elements_of _ = []

abbrev pairs_of : Members → List (Bytes × Value)
pairs_of no_member = []
pairs_of (member k v ms) = (k, v) ∷ pairs_of ms

abbrev items_of : Value → List (Bytes × Value)
items_of (object ms) = pairs_of ms
items_of _ = []

abbrev is_found : Option Value → Bool
is_found none = false
is_found (some _) = true

abbrev found_or_throw : Option Value → Result Value
found_or_throw none = throw json_error
found_or_throw (some v) = ok v

abbrev pub values : JsonApi
values = record {
  Json = Value;
  contains = λ j key. is_found (find j key);
  at = λ j key. found_or_throw (find j key);
  get_string = as_text;
  value_string = λ j key default. default_or as_text (find j key) default;
  value_bool = λ j key default. default_or as_flag (find j key) default;
  value_long = λ j key default. default_or as_number (find j key) default;
  value_array = λ j key. default_or ok (find j key) (array no_element);
  elements = elements_of;
  items = items_of;
}

-- A section that has `verify_client` and no `client_certificate`, and lists one protocol.
abbrev section : Value
section = object (
    member (codes "certificate") (text (codes "cert.pem")) (
      member (codes "verify_client") (flag true) (
        member (codes "protocols") (array (element (text (codes "TLSv1.3")) no_element))
          no_member)))

abbrev section_settings : SslSettings
section_settings = record Tls.default_settings { certificate = codes "cert.pem" }

read_ssl-section : read_ssl values section ≡ ok section_settings
unfolding read_ssl protocols_of read_protocols client_certificate_of protocol_from_string equal
    insert_proto has_proto
read_ssl-section = refl

read_ssl-verifies_example : (verifies (context_calls section_settings) ≡ true) ↔ (
    (default_or as_flag (find section (codes "verify_client")) false ≡ ok true)
    × (default_or as_text (find section (codes "client_certificate")) [] ≢ ok []))
read_ssl-verifies_example = read_ssl-verifies values section read_ssl-section

read_ssl-Has_example :
    Has section_settings.protocols Tls.tlsv1
    ↔ (Has default_protocols Tls.tlsv1 ⊎ IsListed values section Tls.tlsv1)
read_ssl-Has_example = read_ssl-Has values section Tls.tlsv1 read_ssl-section

abbrev pub location : Bytes → Bytes → Value
location path root_doc =
    object (member (codes "location") (text path) (member (codes "root") (text root_doc) no_member))

abbrev pub locations : List Value
locations = location (codes "/") (codes "/srv") ∷ location (codes "/docs/") (codes "/srv") ∷ []

abbrev located : List Place
located = (codes "/", codes "/srv") ∷ (codes "/docs/", codes "/srv") ∷ []

places-locations : places values locations ≡ ok located
unfolding places equal
places-locations = refl

add_locations-locations :
    add_locations values insertion_sort locations [] ≡ ok (add_all insertion_sort located [])
unfolding add_locations add_all equal
add_locations-locations = refl

add_locations-deliver_example :
    deliver
      (route site (add_all insertion_sort located []))
      pieces
      (reading_connection not_found plain)
    ≡ deliver
        (route leaky (add_all insertion_sort located []))
        pieces
        (reading_connection not_found plain)
add_locations-deliver_example =
    add_locations-deliver values site leaky locations located pieces
      (reading_connection not_found plain) insertion_sort-IsSort add_locations-locations
      places-locations (leaky-AgreeInside, (leaky-AgreeInside, tt))

hello-decodes :
    (url_decode hello_request.uri ≡ (true, codes "/")) × (is_refused (codes "/") ≡ false)
unfolding url_decode decode_from is_refused has_dotdot
hello-decodes = (refl, refl)

add_locations-IsLongest_example :
    IsLongest site
      (codes "/")
      hello_request
      (stock_reply not_found)
      (map place_entry located)
      (route site (add_all insertion_sort located []) hello_request (stock_reply not_found))
unfolding equal
add_locations-IsLongest_example =
    add_locations-IsLongest values site locations located hello_request (stock_reply not_found)
      insertion_sort-IsSort add_locations-locations places-locations hello-decodes.0 hello-decodes.1
      refl

-- A network where every call succeeds, and is counted.
abbrev pub network : AsioApi
network = record {
  World = ℕ;
  Endpoint = Bytes × Bytes;
  resolve = λ address port w. ok ((address, port), suc w);
  call_acceptor = λ call w. ok (suc w);
  call_context = λ call w. ok (suc w);
}

abbrev pub server_entry : Value
server_entry = object (
    member (codes "listen_address") (text (codes "0.0.0.0")) (
      member (codes "locations") (array (element (location (codes "/") (codes "/srv")) no_element))
        no_member))

abbrev server_instance : Instance Value
server_instance = record {
  settings = none;
  source = routes (add_all insertion_sort ((codes "/", codes "/srv") ∷ []) []);
  port = codes "80";
  address = codes "0.0.0.0";
}

built :
    build_servers values network insertion_sort (server_entry ∷ []) 0 ≡ ok (server_instance ∷ [], 6)
unfolding build_servers build_server settings_of source_of locations_of add_locations add_all
    call_contexts listen call_all equal
built = refl

-- A run that throws, and leaves one thing less to do.
abbrev pub attempt : ℕ → Exit × ℕ
attempt zero = (finished, 0)
attempt (suc n) = (threw, n)

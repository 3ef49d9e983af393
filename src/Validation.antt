-- ===== src/Validation.antt =====
-- The validation of a GlobalConfiguration
-- (pkg/apis/configuration/validation/globalconfiguration.go): which of its listeners are valid, and
-- the errors of the others. A port is an int that is not negative.
pub mod Ports
pub mod Compatible
pub mod Rounds
pub mod Kept
pub mod Index
pub mod Again
use ingress_nextgen.Common.{
  Bool, List, Option, String, [], bool_eq, contains, false, if◌then◌else◌, map, none, not, some,
  string_eq, suc, true, ℕ, ℕ_eq, ◌&&◌, ◌+++◌, ◌==◌, ◌||◌, ◌∷◌,
}
use ingress_nextgen.Objects.{GlobalConfiguration, Listener}
use ingress_nextgen.Common.Bytes.{Bytes, Bytes_eq, bytes}
use ingress_nextgen.Common.Decimal.{format_uint}
use ingress_nextgen.Validation.Ports.{
  Taken, conflicts, ensured, get_ip, update_port_protocol_combinations,
}

-- field.Path: the index of the listener, or none for all of them, and the field.
pub record FieldPath : Type 0 where
  pub index : Option ℕ
  pub child : String

-- field.Error with its message; the value of an invalid field, which is that of the listener, is left
-- out.
pub data FieldError : Type 0 where
  forbidden : FieldPath → Bytes → FieldError
  duplicate : FieldPath → String → FieldError
  invalid : FieldPath → Bytes → FieldError

-- What the validator calls of other modules: the check of a label and of a port number with their
-- messages, the parsing of an address (none for no address, true for one of IPv4), and the ports that
-- are forbidden.
pub record Checks : Type 0 where
  pub is_dns1035_label : String → List Bytes
  pub is_valid_port_num : ℕ → List Bytes
  pub parse_ip_sloppy : String → Option Bool
  pub forbidden_listener_ports : ℕ → Bool

unfoldable pub allowed_protocols : String → Bool
allowed_protocols protocol = protocol == "TCP" || (protocol == "UDP" || protocol == "HTTP")

-- the address is there and of the other version, or none
abbrev pub is_wrong_ip : Bool → Option Bool → Bool
is_wrong_ip is_ipv4 none = true
is_wrong_ip is_ipv4 (some b) = not (bool_eq b is_ipv4)

unfoldable pub conflict_error : String → Listener → FieldError
unfolding format_uint
conflict_error ip l =
    invalid (record { index = none; child = "protocol" })
      (bytes "Listener "
        +++ (bytes l.name
            +++ (bytes ": Duplicated ip:port protocol combination "
                +++ (bytes ip +++ (b':' ∷ (format_uint l.port +++ (b' ' ∷ bytes l.protocol)))))))

-- The rest of a round of the loop, once the name is taken: the state, the listener if it is valid,
-- and the error.
unfoldable pub admit_ports : Taken → Listener → Taken × List Listener × List FieldError
unfolding ensured conflicts update_port_protocol_combinations get_ip conflict_error
admit_ports t l =
    let t4 = record t { ipv4 = ensured (get_ip true l) t.ipv4 } in
    let t6 = record t4 { ipv6 = ensured (get_ip false l) t.ipv6 } in
    if conflicts t4.ipv4 (get_ip true l) l
    then (
      record t4 { ipv4 = update_port_protocol_combinations t4.ipv4 (get_ip true l) l },
      [],
      conflict_error (get_ip true l) l ∷ [],
    )
    else if conflicts t6.ipv6 (get_ip false l) l
    then (
      record t6 { ipv6 = update_port_protocol_combinations t6.ipv6 (get_ip false l) l },
      [],
      conflict_error (get_ip false l) l ∷ [],
    )
    else (
      record t6 {
        ipv4 = update_port_protocol_combinations t6.ipv4 (get_ip true l) l;
        ipv6 = update_port_protocol_combinations t6.ipv6 (get_ip false l) l;
      },
      l ∷ [],
      [],
    )

unfoldable pub admit_named : Taken → ℕ → Listener → Taken × List Listener × List FieldError
unfolding admit_ports
admit_named t i l =
    if contains t.names l.name
    then (t, [], duplicate (record { index = some i; child = "name" }) l.name ∷ [])
    else admit_ports (record t { names = l.name ∷ t.names }) l

abbrev pub unless_errors :
    List FieldError
    → Taken
    → Taken × List Listener × List FieldError
    → Taken × List Listener × List FieldError
unless_errors [] t round = round
unless_errors (e ∷ errs) t round = (t, [], e ∷ errs)

module _ (checks : Checks) where
  unfoldable pub validate_listener_name : ℕ → String → List FieldError
  validate_listener_name i name =
      let path : FieldPath = record { index = some i; child = "name" } in
      if name == "tls-passthrough"
      then forbidden path (bytes "is the name of a built-in listener") ∷ []
      else map (invalid path) (checks.is_dns1035_label name)

  unfoldable pub validate_listener_port : ℕ → String → ℕ → List FieldError
  validate_listener_port i name port =
      let path : FieldPath = record { index = some i; child = "port" } in
      if checks.forbidden_listener_ports port
      then forbidden path (
          bytes "Listener "
          +++ (bytes name +++ (bytes ": port " +++ (format_uint port +++ bytes " is forbidden"))))
        ∷ []
      else map (invalid path) (checks.is_valid_port_num port)

  unfoldable pub validate_listener_protocol : ℕ → String → List FieldError
  unfolding allowed_protocols
  validate_listener_protocol i protocol =
      if allowed_protocols protocol
      then []
      else invalid (record { index = some i; child = "protocol" })
          (bytes "must specify a valid protocol. Accepted values: HTTP,TCP,UDP")
        ∷ []

  unfoldable pub validate_listener_ipv4 : ℕ → String → List FieldError
  validate_listener_ipv4 i ipv4 =
      if not (ipv4 == "") && is_wrong_ip true (checks.parse_ip_sloppy ipv4)
      then invalid (record { index = some i; child = "ipv4" })
          (bytes "must be a valid IPv4 address")
        ∷ []
      else []

  unfoldable pub validate_listener_ipv6 : ℕ → String → List FieldError
  validate_listener_ipv6 i ipv6 =
      if not (ipv6 == "") && is_wrong_ip false (checks.parse_ip_sloppy ipv6)
      then invalid (record { index = some i; child = "ipv6" })
          (bytes "must be a valid IPv6 address")
        ∷ []
      else []

  unfoldable pub validate_listener : ℕ → Listener → List FieldError
  unfolding validate_listener_name validate_listener_port validate_listener_protocol
      validate_listener_ipv4 validate_listener_ipv6
  validate_listener i l =
      validate_listener_name i l.name
      +++ (validate_listener_port i l.name l.port
          +++ (validate_listener_protocol i l.protocol
              +++ (validate_listener_ipv4 i l.ipv4 +++ validate_listener_ipv6 i l.ipv6)))

  unfoldable pub admit_listener : Taken → ℕ → Listener → Taken × List Listener × List FieldError
  unfolding validate_listener admit_named
  admit_listener t i l = unless_errors (validate_listener i l) t (admit_named t i l)

  unfoldable pub valid_listeners_from : Taken → ℕ → List Listener → List Listener × List FieldError
  unfolding admit_listener
  valid_listeners_from t i [] = ([], [])
  valid_listeners_from t i (l ∷ ls) =
      let (t', kept, errs) = admit_listener t i l in
      let (valid, more) = valid_listeners_from t' (suc i) ls in (kept +++ valid, errs +++ more)

  unfoldable pub get_valid_listeners : List Listener → List Listener × List FieldError
  unfolding valid_listeners_from
  get_valid_listeners listeners =
      valid_listeners_from (record { names = []; ipv4 = []; ipv6 = [] }) 0 listeners

  -- ValidateGlobalConfiguration leaves the valid listeners in the object.
  unfoldable pub validate_global_configuration :
      GlobalConfiguration → GlobalConfiguration × List FieldError
  unfolding get_valid_listeners
  validate_global_configuration gc =
      let (valid, errs) = get_valid_listeners gc.listeners in
      (record gc { listeners = valid }, errs)

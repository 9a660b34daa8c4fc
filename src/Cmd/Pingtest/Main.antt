-- ===== src/Cmd/Pingtest/Main.antt =====
-- cmd/pingtest/main.go: from the environment to `Run`. Each failure ends the process (`log.Fatal`).
-- The codecs of the keys, the parser of a prefix and the WireGuard device are parameters.
use gouter.Base.{
  string_eq, ℕ, List, Bool, true, false, ◌||◌, Option, none, some, String, ◌==◌, if◌then◌else◌,
}
use gouter.Config.{b64_to_hex}
use gouter.Netip.{Prefix}
use gouter.Netstack.Manager.{Manager, Calls, new_manager, add_nic}
use gouter.Router.Packets.{Router}
use gouter.Cmd.Pingtest.{ping_config, ping_router}

pub record PingEnv : Type 0 where
  pub gouter_sk : String
  pub kernel_pk : String
  pub listen_port : String
  pub gouter_ip : String
  pub kernel_ip : String

-- What the device is configured with, apart from constants.
pub record UapiConfig : Type 0 where
  pub private_key : String
  pub listen_port : String
  pub public_key : String
  pub allowed_ip : String

-- How `main` ends, or that it runs, with this configuration and router. An error of `Configure` is
-- only logged.
pub data PingStart (S : Type 0) : Type 0 where
  missing_env bad_sk bad_pk bad_ip nic_failed up_failed : PingStart S
  runs : UapiConfig → Router S → PingStart S

unfoldable pub is_missing : PingEnv → Bool
is_missing env =
    env.gouter_sk == ""
    || (env.kernel_pk == ""
        || (env.listen_port == "" || (env.gouter_ip == "" || env.kernel_ip == "")))

-- `b64ToHex`, a copy of that of internal/config.
abbrev pub copied_b64_to_hex :
    (String → Option (List ℕ)) → (List ℕ → String) → String → Option String
copied_b64_to_hex = b64_to_hex

module _ {S : Type 0} (calls : Calls S) (stack : S) (decode : String → Option (List ℕ))
    (encode : List ℕ → String) (parse_prefix : String → Option Prefix) (single : String → String)
    (comes_up : Bool) where
  -- After `AddNIC`, which returns the manager and whether there was no error.
  unfoldable pub after_nic : UapiConfig → Prefix → Manager S × Bool → PingStart S
  after_nic uapi prefix (ns, false) = nic_failed
  after_nic uapi prefix (ns, true) =
      if comes_up then runs uapi (ping_router calls ns prefix) else up_failed

  -- `single` puts the length of a single address behind it.
  unfoldable pub ping_main : PingEnv → PingStart S
  ping_main env =
      if is_missing env then missing_env else elim (copied_b64_to_hex decode encode env.gouter_sk) [
        | none ↦ bad_sk
        | some private_key ↦ elim (copied_b64_to_hex decode encode env.kernel_pk) [
          | none ↦ bad_pk
          | some public_key ↦ elim (parse_prefix env.gouter_ip) [
            | none ↦ bad_ip
            | some prefix ↦
                after_nic
                  (record {
                    private_key = private_key;
                    listen_port = env.listen_port;
                    public_key = public_key;
                    allowed_ip = single env.kernel_ip;
                  })
                  prefix (add_nic calls (new_manager stack true) (ping_config prefix))
          ]
        ]
      ]

-- ===== src/Cli/Main.antt =====
-- crates/authz-cli/src/main.rs: the commands and `main`.
use Prim.Native.Nat.{ℕ}
use paac.Prelude.{String, ◌^^◌, Bool, Option, none, some, length, Result, ok, err, panic, show_nat}
use paac.Catalog.{validate_catalog}
use paac.Catalog.Load.{load_catalog}
use paac.Cli.State.{
  Paths, CliError, catalog, Libraries, Moment, Cli, ◌>>=◌, ◌>>◌, return, lift, asks, print,
}
use paac.Cli.Directory.{identity_sync, identity_discover}
use paac.Cli.Policies.{
  policy_validate, policy_test, policy_diff, policy_commit, policy_sign, policy_deploy,
}
use paac.Cli.Decisions.{CheckFlags, check_cmd, explain_cmd, suggest_cmd}

pub data IdentityCmd : Type 0 where
  sync : String → Bool → IdentityCmd
  discover : Bool → IdentityCmd

pub data PolicyCmd : Type 0 where
  validate : Option String → PolicyCmd
  test sign deploy suggest : PolicyCmd
  diff : Option String → PolicyCmd
  commit : String → PolicyCmd

pub data Commands : Type 0 where
  identity_cmd : IdentityCmd → Commands
  policy_cmd : PolicyCmd → Commands
  check : CheckFlags → Commands
  explain : String → Commands
  suggestions : Commands
  catalog_validate : String → Commands
  proxy_run : String → Option String → Commands

-- ` --listen …`, if it is given
unfoldable pub listen_flag : Option String → String
listen_flag none = ""
listen_flag (some l) = " --listen " ^^ l

module _ (lib : Libraries) (paths : Paths) (moment : Moment lib) where
  -- A command that ends with `Ok(())`
  abbrev pub then_zero : Cli (Unit {0}) → Cli ℕ
  then_zero run = run >> return 0

  unfoldable pub identity_arm : IdentityCmd → Cli (Unit {0})
  identity_arm (sync source drafts) = identity_sync lib paths moment source drafts
  identity_arm (discover drafts) = identity_discover lib paths moment drafts

  unfoldable pub policy_arm : PolicyCmd → Cli (Unit {0})
  policy_arm (validate file) = policy_validate lib file
  policy_arm test = policy_test lib moment
  policy_arm (diff revision) = policy_diff revision
  policy_arm (commit message) = policy_commit lib moment message
  policy_arm sign = policy_sign lib moment paths
  policy_arm deploy = policy_deploy
  policy_arm suggest = suggest_cmd lib moment

  unfoldable pub catalog_arm : String → Cli (Unit {0})
  catalog_arm file = do
    text ← asks (λ w. w.other file)
    cat ← lift catalog (load_catalog lib.read_catalog file text)
    lift catalog (validate_catalog cat)
    print (
        "OK: catalog "
        ^^ (file
            ^^ (" ("
                ^^ (show_nat (length cat.resources)
                    ^^ (" resources, " ^^ (show_nat (length cat.tools) ^^ " tools)"))))))

  unfoldable pub proxy_arm : String → Option String → Cli (Unit {0})
  unfolding listen_flag
  proxy_arm config listen = do
    print "Start the gateway with:"
    print ("  cargo run -p authz-llm-proxy -- --config " ^^ (config ^^ listen_flag listen))
    print ("Or: ./target/release/paac-proxy --config " ^^ (config ^^ listen_flag listen))

  -- What a command does, and the status with which it exits if it does not fail.
  unfoldable pub run : Commands → Cli ℕ
  unfolding identity_arm policy_arm catalog_arm proxy_arm
  run (identity_cmd cmd) = then_zero (identity_arm cmd)
  run (policy_cmd cmd) = then_zero (policy_arm cmd)
  run (check flags) = check_cmd lib moment flags
  run (explain id) = then_zero (explain_cmd lib moment paths id)
  run suggestions = then_zero (suggest_cmd lib moment)
  run (catalog_validate file) = then_zero (catalog_arm file)
  run (proxy_run config listen) = then_zero (proxy_arm config listen)

-- The status of the process: an error that `main` returns is 1, an unwound thread 101.
unfoldable pub exit_status : Result CliError ℕ → ℕ
exit_status (ok n) = n
exit_status (err e) = 1
exit_status panic = 101

-- ===== src/Cli/State.antt =====
-- crates/authz-cli/src/main.rs: what a command works on. A command takes the files below its paths and
-- returns its result with the files it leaves, on failures too; what it prints is a list of lines.
use Prim.Native.Nat.{ℕ}
use paac.Prelude.{String, Option, List, [], ◌∷◌, ◌++◌, Result, ok, err, panic, map_err}
use paac.Core.Cedar.{Cedar}
use paac.Core.Decision.{AuthzDecision, Stamp}
use paac.Core.Error.{AuthzError}
use paac.Core.Request.{AuthzRequest}
use paac.Policy.Error.{PolicyError}
use paac.Policy.Sign.{Crypto, SigningKeyPair}
use paac.Policy.Store.{Disk, Clock}
use paac.Identity.Model.{IdentitySnapshot, IdentityError}
use paac.Identity.Ldap.{LdapLib}
use paac.Identity.Providers.{HttpLib}
use paac.Bridge.{Native, BridgeError}
use paac.Catalog.{CatalogError}
use paac.Catalog.Load.{CatalogReader}
use paac.Suggest.{LineFormat}

pub record Paths : Type 0 where
  pub policy_dir : String
  pub identity_dir : String
  pub audit_path : String
  pub key_path : String

-- `anyhow::Error` with what it wraps.
pub data CliError : Type 0 where
  policy : PolicyError → CliError
  identity : IdentityError → CliError
  kernel : AuthzError → CliError
  bridge : BridgeError → CliError
  catalog : CatalogError → CliError
  json io bail : String → CliError
  context : String → CliError → CliError

-- The libraries that the commands use.
pub record Libraries : Type 1 where
  pub cedar : Cedar
  pub schema : String
  pub crypto : Crypto
  pub ldap : LdapLib
  pub http : HttpLib
  pub native : Native
  pub lines : LineFormat
  pub read_catalog : CatalogReader
  pub read_snapshot : String → Result String IdentitySnapshot
  -- `serde_json::to_string_pretty`
  pub pretty_request : AuthzRequest → String
  pub pretty_decision : AuthzDecision → String

-- The clock at a run, and what is drawn at random during it: stamps for the evaluations, and a key.
pub record Moment (lib : Libraries) : Type 0 where
  pub clock : Clock
  pub stamp : ℕ → Stamp
  pub secret : lib.crypto.Secret

-- The policy store, identity_dir/snapshot.json and identity_dir/fixtures.json, the audit file and the
-- key file. A file that is there but cannot be read as what it should hold is an error's text. `other`
-- is any other file that a command is pointed to.
pub record World : Type 0 where
  pub disk : Disk
  pub snapshot : Option (Result String IdentitySnapshot)
  pub fixtures : Result String String
  pub audit : Option (List String)
  pub key : Option (Result String SigningKeyPair)
  pub other : String → Result String String
  pub printed : List String

abbrev pub Cli : Type 0 → Type 0
Cli A = World → Result CliError A × World

abbrev pub after :
    {A B : Type 0} → Result CliError A × World → (A → Cli B) → Result CliError B × World
after (ok a, w) next = next a w
after (err e, w) next = (err e, w)
after (panic, w) next = (panic, w)

infixl 5 ◌>>=◌ ◌>>◌
abbrev pub ◌>>=◌ : {A B : Type 0} → Cli A → (A → Cli B) → Cli B
◌>>=◌ first next w = after (first w) next

abbrev pub ◌>>◌ : {B : Type 0} → Cli (Unit {0}) → Cli B → Cli B
first >> next = first >>= λ _. next

abbrev pub return : {A : Type 0} → A → Cli A
return a w = (ok a, w)

-- `?` on a result whose error is made one of `anyhow`
abbrev pub lift : {E A : Type 0} → (E → CliError) → Result E A → Cli A
lift wrap r w = (map_err wrap r, w)

abbrev pub of_result : {A : Type 0} → Result CliError A → Cli A
of_result r w = (r, w)

abbrev pub fail : {A : Type 0} → CliError → Cli A
fail e w = (err e, w)

abbrev pub asks : {A : Type 0} → (World → A) → Cli A
asks f w = (ok (f w), w)

abbrev pub modify : (World → World) → Cli (Unit {0})
modify f w = (ok tt, f w)

-- `println!`
abbrev pub print : String → Cli (Unit {0})
print line w = (ok tt, record w { printed = w.printed ++ line ∷ [] })

unfoldable pub print_all : List String → Cli (Unit {0})
print_all [] = return tt
print_all (line ∷ more) = print line >> print_all more

-- What a failing call of the store does to the disk: nothing.
abbrev pub put_disk : {A : Type 0} → World → Result CliError (A × Disk) → Result CliError A × World
put_disk w (ok (a, d)) = (ok a, record w { disk = d })
put_disk w (err e) = (err e, w)
put_disk w panic = (panic, w)

abbrev pub on_disk : {A : Type 0} → (Disk → Result PolicyError (A × Disk)) → Cli A
on_disk f w = put_disk w (map_err policy (f w.disk))

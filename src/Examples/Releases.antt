-- ===== src/Examples/Releases.antt =====
-- Tests of a release with the commands of crates/authz-cli/src/main.rs, and of the gateway over it.

use paac.Prelude.{◌^^◌, none, some, [], ◌∷◌, ok, ◌≡◌, refl}
use paac.Core.HotCache.{load}
use paac.Policy.Sign.{SigningKeyPair, from_keypair}
use paac.Policy.Sign.Laws.{KeyLaws}
use paac.Policy.Store.{read_active_dsl}
use paac.Cli.State.{Moment, World}
use paac.Cli.Main.{policy_cmd, commit, sign, deploy, run, policy_arm}
use paac.Cli.Policies.{policy_commit, policy_sign}
use paac.Cli.Release.{IsReleased, deploy-IsReleased}
use paac.Cli.Release.Served.{from_config-IsReleased}
use paac.Proxy.Engine.{Startup, AuthzEngine, from_config, is_ready}
use paac.Examples.Toy.{kernel, crypto, crypto_laws}
use paac.Examples.Policies.{
  clock, clock-IsTrimmedName, edited, committed, commit-committed, signed, sign_head-signed,
}
use paac.Examples.Commands.{libraries, paths, moment, files}
use paac.Examples.World.{state}

-- The key file and an active text.
abbrev pair : SigningKeyPair
pair = record { key_id = "key-1"; secret_hex = "secret"; public_hex = "secret" }

crypto-KeyLaws : KeyLaws crypto
crypto-KeyLaws = record { hex_decode-hex_encode = λ b. refl; secret_of-secret_bytes = λ k. refl }

abbrev before : World
before = record (files edited) { key = some (ok pair) }

abbrev after_commit : World
after_commit = record before {
  disk = committed.1;
  printed =
      ("committed revision " ^^ (committed.0.revision ^^ (" — " ^^ committed.0.message))) ∷ [];
}

commits : run libraries paths moment (policy_cmd (commit "first")) before ≡ (ok 0, after_commit)
unfolding run policy_arm policy_commit
commits = rw commit-committed refl

abbrev later : Moment libraries
later = record moment { clock = record clock { rfc3339 = "today" } }

abbrev after_sign : World
after_sign = record after_commit {
  disk = signed.1;
  printed =
      ("committed revision " ^^ (committed.0.revision ^^ (" — " ^^ committed.0.message)))
      ∷ (("signed revision "
            ^^ (signed.0.revision
                ^^ (" with "
                    ^^ (signed.0.key_id ^^ (" (sha256 " ^^ (signed.0.content_sha256 ^^ ")"))))))
          ∷ []);
}

signs : run libraries paths later (policy_cmd sign) after_commit ≡ (ok 0, after_sign)
unfolding run policy_arm policy_sign from_keypair
signs = rw sign_head-signed refl

deploy-IsReleased_example :
    ((run libraries paths moment (policy_cmd deploy) after_sign).0 ≡ ok 0)
    × (released : IsReleased libraries
        (read_active_dsl edited)
        (run libraries paths moment (policy_cmd deploy) after_sign).1.disk)
    × ((run libraries paths moment (policy_cmd deploy) after_sign).1.key ≡ some (ok released.pair))
deploy-IsReleased_example =
    deploy-IsReleased libraries paths crypto-KeyLaws crypto_laws moment later moment "first" before
      after_commit after_sign clock-IsTrimmedName commits signs

abbrev released :
    IsReleased libraries
      (read_active_dsl edited)
      (run libraries paths moment (policy_cmd deploy) after_sign).1.disk
released =
    (deploy-IsReleased libraries paths crypto-KeyLaws crypto_laws moment later moment "first" before
      after_commit after_sign clock-IsTrimmedName commits signs).1

-- The gateway reads the key file of the command line.
abbrev found : Startup
found = record {
  disk = (run libraries paths moment (policy_cmd deploy) after_sign).1.disk;
  key_file = some released.pair;
  catalog = none;
  sqlite = none;
}

opened : paac.Proxy.Engine.required_store found.sqlite ≡ ok none
unfolding paac.Proxy.Engine.required_store
opened = refl

from_config-IsReleased_example :
    (e : AuthzEngine kernel) × (from_config kernel "" crypto state.cfg found ≡ ok e)
    × (is_ready kernel e ≡ ok tt)
    × ((load kernel e.bundle).policy_revision ≡ released.rev.revision)
    × (kernel.parse_policy_set released.rev.cedar ≡ ok (load kernel e.bundle).policy_set)
from_config-IsReleased_example =
    from_config-IsReleased libraries (read_active_dsl edited)
      (run libraries paths moment (policy_cmd deploy) after_sign).1.disk released state.cfg found
      none refl refl opened

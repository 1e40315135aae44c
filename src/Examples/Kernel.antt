-- ===== src/Examples/Kernel.antt =====
-- Tests of the kernel in crates/authz-core/src.
use paac.Prelude.{◌^^◌, ◌≡◌, none, some, if◌then◌else◌}
use paac.Core.Request.{AuthzRequest}
use paac.Core.Evaluate.Context.{escape}
use paac.Core.Evaluate.Literals.{read_string, is_printable, read_string-escape}
use paac.Core.Evaluate.Laws.{IsDecided, IsConsistent, evaluate-ok, evaluate-IsConsistent}
use paac.Examples.Toy.{kernel, stamp, request, config, alice, decision, evaluated}

evaluate-ok_example :
    (q : kernel.Request) × (es : kernel.Entities) × IsDecided kernel stamp request config q es
      decision
evaluate-ok_example = evaluate-ok kernel stamp request config decision evaluated

evaluate-IsConsistent_example : IsConsistent decision
evaluate-IsConsistent_example = evaluate-IsConsistent kernel stamp request config decision evaluated

abbrev nobody : AuthzRequest
nobody = record request { principal = record alice { id = " \t" } }

read_string-escape_example :
    read_string (escape "say \"hi\" \\" ^^ ("\"" ^^ ", \"next\""))
    ≡ (if is_printable "say \"hi\" \\" then some ("say \"hi\" \\", ", \"next\"") else none)
read_string-escape_example = read_string-escape "say \"hi\" \\" ", \"next\""

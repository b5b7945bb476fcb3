-- ===== src/Options/Parse.antt =====
-- `Options::parse_argspan` of options.h: the items are run, and the operands are returned.
pub mod Safe
use jaim.Prelude.{List, [], ◌∷◌, none, some, Result, ok, err, ◌>>=◌, Text, drop}
use jaim.Options.Action.{
  Actions, Error, requires_argument, unknown_option, takes_no_argument, unreachable, call,
  call_with,
}
use jaim.Options.Scan.{Kind, ScanItem, scan_args}

module _ {S E : Type 0} where
  -- One case of the switch. A call through a null `action` is undefined.
  run_item : Kind → ScanItem S E → S → Result (Error E) S
  run_item Kind.option it s = elim it.action [ none ↦ err unreachable | some a ↦ call a s ]
  run_item Kind.option_arg it s = elim it.action [
    | none ↦ err unreachable
    | some a ↦ call_with a it.value s
  ]
  run_item Kind.need_next_arg it s = err (requires_argument it.opt)
  run_item Kind.unknown_option it s = err (unknown_option it.opt)
  run_item Kind.unexpected_arg it s = err (takes_no_argument it.opt)
  run_item _ it s = err unreachable

  unfoldable pub run_items : List (ScanItem S E) → S → Result (Error E) S
  unfolding run_item
  run_items [] s = ok s
  run_items (it ∷ items) s = do s' ← run_item it.kind it s; run_items items s'

  -- `args.subspan(res.positional)` is the list of operands.
  unfoldable pub parse_argspan : Actions S E → List Text → S → Result (Error E) (S × List Text)
  unfolding run_items
  parse_argspan m args s =
      let res = scan_args m args in do s' ← run_items res.scan s; ok (s', drop res.positional args)

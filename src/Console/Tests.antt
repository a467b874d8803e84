-- ===== src/Console/Tests.antt =====
-- Lines that are typed on the console of a server without users.
use qchat_server.Base.{◌≡◌, refl, true, false, [], ◌∷◌, ok}
use qchat_server.Base.Dict.{lookup, insert}
use qchat_server.Options.{
  codes, text_key, add, parse, parse_loop, argument, long_option, value_behind, get_type, set_value,
  next_value, split_at, all_required, has_opt_with_value,
}
use qchat_server.Options.Words.{split, split_loop, drop_spaces, strip}
use qchat_server.Console.{
  Console, described, say, input, input_words, cut_at_dash, asks_help, run_word, run_found, execute,
  command_map, console_options, description,
}
use qchat_server.Console.Stopping.{Ends, input-Ends}

abbrev console : Console
console = record { stopped = false; log = [] }

-- " stop ", and the help of it.
stop_runs : input [] (codes " stop ") console ≡ (ok false, record console { stopped = true })
unfolding input input_words cut_at_dash asks_help run_word run_found execute command_map
    console_options split split_loop drop_spaces strip add parse parse_loop argument all_required
    has_opt_with_value lookup insert
stop_runs = refl

stop_help :
    input [] (codes "stop --help") console
    ≡ (ok true, record console { log = described (codes "stop") (codes "stop server") ∷ [] })
unfolding input input_words cut_at_dash asks_help run_word run_found execute command_map
    console_options split split_loop drop_spaces strip add parse parse_loop argument long_option
    value_behind get_type set_value next_value split_at all_required has_opt_with_value lookup
    insert say description
stop_help = refl

input-Ends_example :
    Ends
      (strip (cut_at_dash (drop_spaces (codes " stop "))).0)
      console
      (input [] (codes " stop ") console)
input-Ends_example = input-Ends [] (codes " stop ") console

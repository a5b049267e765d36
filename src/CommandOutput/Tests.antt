-- ===== src/CommandOutput/Tests.antt =====
-- The output of a tool with colours, blank lines and a token.
use auto_ops.Prelude.{◌≡◌, refl, false, ◌++◌, ◌∷◌, codes}
use auto_ops.Urn.{Text}
use auto_ops.CommandOutput.{shows_secret, summarize_command_output}
use auto_ops.CommandOutput.Laws.{summarize_command_output-shows_secret}

abbrev printed_output : Text
printed_output = 27 ∷ (codes "[1;32mok" ++ 27 ∷ codes "[0m  \r\n  \nuse Api-Key 12\nand 27[m")

summarizes : summarize_command_output printed_output 8000 ≡ codes "ok\n[REDACTED LINE]\nand 27[m"
unfolding summarize_command_output
summarizes = refl

cuts : summarize_command_output printed_output 9 ≡ codes "ok\n[REDAC"
unfolding summarize_command_output
cuts = refl

summarize_command_output-shows_secret_example :
    shows_secret (summarize_command_output printed_output 9) ≡ false
summarize_command_output-shows_secret_example =
    summarize_command_output-shows_secret printed_output 9

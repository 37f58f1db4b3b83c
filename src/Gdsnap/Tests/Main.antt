-- ===== src/Gdsnap/Tests/Main.antt =====
-- gdsnap/gdsnap.go, Run on small command lines.
use cfg.Base.{refl, ◌≡◌}
use cfg.Text.{codes, text_eq}
use cfg.Gdsnap.Main.{Warning, command_of, warn, watch, with_slash}

watch_command : command_of (codes "watch") ≡ watch
unfolding command_of text_eq
watch_command = refl

slash_added : with_slash (codes "/d") ≡ codes "/d/"
unfolding with_slash
slash_added = refl

-- A command of blanks for warnings ends the program.
blank_command : warn (codes " ") ≡ Warning.panics
unfolding warn
blank_command = refl

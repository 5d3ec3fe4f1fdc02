-- ===== src/Config/Cron.antt =====
-- src/config.rs, `normalize_cron_expression`.
use homeserver_rust.Prelude.{String, length, ◌==◌, if◌then◌else◌}
use homeserver_rust.Text.{split_whitespace, trim, append, join_space}

unfoldable pub normalize_cron_expression : String → String
unfolding split_whitespace trim append join_space
normalize_cron_expression s =
    let parts = split_whitespace s in
    if length parts == 5 then append "0 " (join_space parts) else trim s

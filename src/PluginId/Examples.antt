-- ===== src/PluginId/Examples.antt =====
-- Identifiers that are accepted and refused.
use bro_know_my_qqbot.Prelude.{◌≡◌, ◌↔◌, refl, [], ok, err}
use bro_know_my_qqbot.Prelude.Text.{codes, split, byte_len}
use bro_know_my_qqbot.PluginId.{new_plugin_id, check_segments, too_few_segments, invalid_segment}
use bro_know_my_qqbot.PluginId.Segments.{IsPluginId, new_plugin_id_lem}

program : Unit {0}
unfolding new_plugin_id check_segments split byte_len
program = tt

ping_id : new_plugin_id (codes "dev.bkm.ping") ≡ ok (codes "dev.bkm.ping")
unfolding program
ping_id = refl

short_id : new_plugin_id (codes "plugin") ≡ err too_few_segments
unfolding program
short_id = refl

upper_id : new_plugin_id (codes "Dev.bkm.ping") ≡ err (invalid_segment (codes "Dev"))
unfolding program
upper_id = refl

gap_id : new_plugin_id (codes "dev..ping") ≡ err (invalid_segment [])
unfolding program
gap_id = refl

new_plugin_id_lem_example :
    (new_plugin_id (codes "dev.bkm.ping") ≡ ok (codes "dev.bkm.ping"))
    ↔ ((codes "dev.bkm.ping" ≡ codes "dev.bkm.ping") × IsPluginId (codes "dev.bkm.ping"))
new_plugin_id_lem_example = new_plugin_id_lem (codes "dev.bkm.ping") (codes "dev.bkm.ping")

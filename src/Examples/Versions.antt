-- ===== src/Examples/Versions.antt =====
-- Versions read and compared.
use dock_neighbor_hub.Shared.{◌≡◌, refl, true, none, some, codes, is_whitespace}
use dock_neighbor_hub.Probation.{trim_start_codes, trim_end_codes}
use dock_neighbor_hub.UpdateCheck.{is_newer, both_later, later, parse_version}

tag_read : parse_version (codes " daemon-v0.3.24+b1 ") ≡ some (0, 3, 24)
unfolding parse_version trim_end_codes trim_start_codes is_whitespace
tag_read = refl

four_parts_refused : parse_version (codes "1.2.3.4") ≡ none
unfolding parse_version trim_end_codes trim_start_codes is_whitespace
four_parts_refused = refl

numbers_not_texts : is_newer (codes "0.10.0") (codes "0.9.9") ≡ true
unfolding is_newer both_later later parse_version trim_end_codes trim_start_codes is_whitespace
numbers_not_texts = refl

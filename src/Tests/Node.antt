-- ===== src/Tests/Node.antt =====
-- Tests of the writes through a node.
use abcoder.Base.{◌≡◌, Bool, true, false, ◌&&◌, if◌then◌else◌}
use abcoder.Base.Int.{pos}
use abcoder.Base.Text.{codes}
use abcoder.Base.Result.{ok}
use abcoder.Uniast.Model.{FileLine, Repository, Node}
use abcoder.Uniast.Zero.{zero_file_line}
use abcoder.Uniast.Node.{
  file_line, resolve, content, compress_data, is_exported, set_content, set_file_line, shown,
}
use abcoder.Uniast.Node.Write.{same_entity}
use abcoder.Uniast.Node.Effects.{set_content_effect, set_file_line_effect}
use abcoder.Tests.Data.{f_node, repo}

set_content_effect_example :
    (r' : Repository) × (done' : Bool) × (set_content repo f_node (codes "new") ≡ ok (r', done'))
    × (done' ≡ shown (λ _. true) false (resolve repo f_node))
    × ((m : Node)
        → (content r' m ≡ (if done' && same_entity f_node m then codes "new" else content repo m))
          × (file_line r' m ≡ file_line repo m)
          × (compress_data r' m ≡ compress_data repo m)
          × (is_exported r' m ≡ is_exported repo m))
set_content_effect_example = set_content_effect repo f_node (codes "new")

abbrev line_two : FileLine
line_two = record zero_file_line { line = pos 2 }

set_file_line_effect_example :
    (r' : Repository) × (done' : Bool) × (set_file_line repo f_node line_two ≡ ok r')
    × (done' ≡ shown (λ _. true) false (resolve repo f_node))
    × ((m : Node)
        → (file_line r' m ≡ (if done' && same_entity f_node m then line_two else file_line repo m))
          × (content r' m ≡ content repo m)
          × (compress_data r' m ≡ compress_data repo m)
          × (is_exported r' m ≡ is_exported repo m))
set_file_line_effect_example = set_file_line_effect repo f_node line_two

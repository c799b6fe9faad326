-- ===== src/Uniast/Node/Effects.antt =====
-- The three setters that the patcher and the compressor call, each with all that it changes.
use abcoder.Base.{◌≡◌, refl, Bool, true, false, ◌&&◌, [], none, some, if◌then◌else◌}
use abcoder.Base.Text.{Text}
use abcoder.Base.Result.{ok}
use abcoder.Uniast.Model.{FileLine, Repository, Node}
use abcoder.Uniast.Zero.{zero_file_line}
use abcoder.Uniast.Node.{
  Entity, function, type_decl, variable, entity_kind, shown, entity_content, entity_file_line,
  entity_compress_data, entity_is_exported, resolve, content, compress_data, file_line, is_exported,
  set_content, with_content, set_file_line, with_file_line, set_compress_data, with_compress_data,
}
use abcoder.Uniast.Node.Write.{same_entity}
use abcoder.Uniast.Node.Setters.{
  write_node-total, write_node-done, write_node-kept, write_node-changed,
}

-- SetContent never panics, and says whether the node resolves to an entity. If it does, every
-- attached node with the same type and identity has the new content; every other node, or each
-- if it does not, has what it had. No file line, compressed data or exported flag changes.
pub set_content_effect :
    (r : Repository) (n : Node) (c : Text)
    → (r' : Repository) × (done : Bool) × (set_content r n c ≡ ok (r', done))
      × (done ≡ shown (λ _. true) false (resolve r n))
      × ((m : Node)
          → (content r' m ≡ (if done && same_entity n m then c else content r m))
            × (file_line r' m ≡ file_line r m)
            × (compress_data r' m ≡ compress_data r m)
            × (is_exported r' m ≡ is_exported r m))
unfolding set_content content file_line compress_data is_exported
set_content_effect r n c =
    let edit = with_content c in
    let keeps : (e : Entity) → entity_kind (edit e) ≡ entity_kind e = elim [
      | function _ ↦ refl
      | type_decl _ ↦ refl
      | variable _ ↦ refl
    ] in
    let (r', done, e) = write_node-total r n edit keeps in
    (
      r',
      done,
      e,
      write_node-done (λ _. true) false r r' n edit keeps done e,
      λ m. (
        write_node-changed entity_content [] r r' n edit keeps done e c
            (elim [ function _ ↦ refl | type_decl _ ↦ refl | variable _ ↦ refl ]) m,
        write_node-kept entity_file_line zero_file_line r r' n edit keeps done e
            (elim [ function _ ↦ refl | type_decl _ ↦ refl | variable _ ↦ refl ]) m,
        write_node-kept entity_compress_data none r r' n edit keeps done e
            (elim [ function _ ↦ refl | type_decl _ ↦ refl | variable _ ↦ refl ]) m,
        write_node-kept entity_is_exported false r r' n edit keeps done e
            (elim [ function _ ↦ refl | type_decl _ ↦ refl | variable _ ↦ refl ]) m,
      ),
    )

-- SetCompressData never panics, and says whether the node resolves to an entity. If it does, every
-- attached node with the same type and identity has the new compressed data; every other node, or
-- each if it does not, has what it had. No content, file line or exported flag changes.
pub set_compress_data_effect :
    (r : Repository) (n : Node) (d : Text)
    → (r' : Repository) × (done : Bool) × (set_compress_data r n d ≡ ok (r', done))
      × (done ≡ shown (λ _. true) false (resolve r n))
      × ((m : Node)
          → (compress_data r' m ≡ (if done && same_entity n m then some d else compress_data r m))
            × (content r' m ≡ content r m)
            × (file_line r' m ≡ file_line r m)
            × (is_exported r' m ≡ is_exported r m))
unfolding set_compress_data content file_line compress_data is_exported
set_compress_data_effect r n d =
    let edit = with_compress_data d in
    let keeps : (e : Entity) → entity_kind (edit e) ≡ entity_kind e = elim [
      | function _ ↦ refl
      | type_decl _ ↦ refl
      | variable _ ↦ refl
    ] in
    let (r', done, e) = write_node-total r n edit keeps in
    (
      r',
      done,
      e,
      write_node-done (λ _. true) false r r' n edit keeps done e,
      λ m. (
        write_node-changed entity_compress_data none r r' n edit keeps done e (some d)
            (elim [ function _ ↦ refl | type_decl _ ↦ refl | variable _ ↦ refl ]) m,
        write_node-kept entity_content [] r r' n edit keeps done e
            (elim [ function _ ↦ refl | type_decl _ ↦ refl | variable _ ↦ refl ]) m,
        write_node-kept entity_file_line zero_file_line r r' n edit keeps done e
            (elim [ function _ ↦ refl | type_decl _ ↦ refl | variable _ ↦ refl ]) m,
        write_node-kept entity_is_exported false r r' n edit keeps done e
            (elim [ function _ ↦ refl | type_decl _ ↦ refl | variable _ ↦ refl ]) m,
      ),
    )

-- SetFileLine never panics. If the node resolves to an entity, every attached node with the same
-- type and identity has the new file line; every other node, or each if it does not, has what it
-- had. No content, compressed data or exported flag changes.
pub set_file_line_effect :
    (r : Repository) (n : Node) (l : FileLine)
    → (r' : Repository) × (done : Bool) × (set_file_line r n l ≡ ok r')
      × (done ≡ shown (λ _. true) false (resolve r n))
      × ((m : Node)
          → (file_line r' m ≡ (if done && same_entity n m then l else file_line r m))
            × (content r' m ≡ content r m)
            × (compress_data r' m ≡ compress_data r m)
            × (is_exported r' m ≡ is_exported r m))
unfolding set_file_line content file_line compress_data is_exported
set_file_line_effect r n l =
    let edit = with_file_line l in
    let keeps : (e : Entity) → entity_kind (edit e) ≡ entity_kind e = elim [
      | function _ ↦ refl
      | type_decl _ ↦ refl
      | variable _ ↦ refl
    ] in
    let (r', done, e) = write_node-total r n edit keeps in
    (
      r',
      done,
      rw e,
      write_node-done (λ _. true) false r r' n edit keeps done e,
      λ m. (
        write_node-changed entity_file_line zero_file_line r r' n edit keeps done e l
            (elim [ function _ ↦ refl | type_decl _ ↦ refl | variable _ ↦ refl ]) m,
        write_node-kept entity_content [] r r' n edit keeps done e
            (elim [ function _ ↦ refl | type_decl _ ↦ refl | variable _ ↦ refl ]) m,
        write_node-kept entity_compress_data none r r' n edit keeps done e
            (elim [ function _ ↦ refl | type_decl _ ↦ refl | variable _ ↦ refl ]) m,
        write_node-kept entity_is_exported false r r' n edit keeps done e
            (elim [ function _ ↦ refl | type_decl _ ↦ refl | variable _ ↦ refl ]) m,
      ),
    )

-- ===== src/EditFile/Tests.antt =====
-- Edits of a text (internal/tool/file_edit.go), and the theorem about them.
use vibe_local_go.Base.{◌≡◌, refl, true, false, codes, decimal}
use vibe_local_go.EditFile.{
  edit_content, edited, edit_error, count_from, replace_from, replace_first,
}
use vibe_local_go.EditFile.Replacing.{IsEdit, edit_content-IsEdit}

-- Occurrences do not overlap.
replaces_all : edit_content true (codes "aa") (codes "b") (codes "aaaxaa") ≡ edited (codes "baxb")
unfolding edit_content replace_from
replaces_all = refl

refuses_two :
    edit_content false (codes "a") (codes "b") (codes "axa")
    ≡ edit_error "old_string appears 2 times; use replace_all=true or provide more unique context"
unfolding edit_content count_from decimal
refuses_two = refl

edit_content-IsEdit_example :
    IsEdit false (codes "key") (codes "id") (codes "a key b") (codes "a id b")
unfolding edit_content count_from replace_first
edit_content-IsEdit_example =
    edit_content-IsEdit false (codes "key") (codes "id") (codes "a key b") (codes "a id b") refl

-- ===== src/Master/Numbers/Tests.antt =====
-- The numbers of a new Master.
use huron_fs.Prelude.{◌≡◌, refl, true, false, arith, []}
use huron_fs.Prelude.Int.{pos}
use huron_fs.Master.{Master, returns}
use huron_fs.Master.Start.{new_master}
use huron_fs.Master.Numbers.{mark, get_file_no_below, release_file_no}
use huron_fs.Master.Numbers.Laws.{
  used, IsCounted, Numbered, get_file_no-Numbered, release_file_no-IsCounted,
}

abbrev new : Master
new = new_master [] (pos 0) 0 0

get_file_no-Numbered_example : Numbered 3 new (get_file_no_below 3 new)
unfolding used
get_file_no-Numbered_example =
    get_file_no-Numbered 3 new (record { counted = refl; current = omega arith })

abbrev one_taken : Master
one_taken = record new {
  file_number = 1;
  file_no_pool = mark 1 true (λ n. false);
  current_file_no = 2;
}

release_file_no-IsCounted_example :
    (s' : Master) × (release_file_no (pos 1) one_taken ≡ returns tt s')
    × (s'.file_no_pool 1 ≡ false)
    × IsCounted 3 s'
unfolding used mark
release_file_no-IsCounted_example =
    release_file_no-IsCounted 3 1 one_taken (record { counted = refl; current = omega arith })
      (omega arith) refl

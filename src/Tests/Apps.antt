-- ===== src/Tests/Apps.antt =====
-- AppRepo.Add where the world is the domain of the route created last.
use flynn_controller.Prelude.{ℕ, ◌≡◌, refl, false, Bool, some, none, [], Text, codes, text_eq}
use flynn_controller.Types.{App}
use flynn_controller.Sql.{Sql, row, unique_violation}
use flynn_controller.Apps.{DefaultRoute, add_app}

abbrev app : Text → App
app name = record {
  id = codes "7";
  name = name;
  protected = false;
  meta = [];
  created_at = none;
  updated_at = none;
}

abbrev uuid : Text → Text × Text
uuid w = (codes "8-8", w)

abbrev insert : App → Text → Sql (ℕ × ℕ) × Text
insert a w = (row (1, 2), w)

abbrev refuse : App → Text → Sql (ℕ × ℕ) × Text
refuse a w = (unique_violation, w)

abbrev create : DefaultRoute → Text → Bool × Text
create r w = (false, r.domain)

abbrev site : App
site = record (app (codes "my-site")) { created_at = some 1; updated_at = some 2 }

-- The route is created for a name that is taken, too.
routed :
    add_app uuid refuse create (codes "io") (app (codes "my-site")) [] ≡ (none, codes "my-site.io")
unfolding add_app
routed = refl

refused : add_app uuid insert create (codes "io") (app (codes "my--site")) [] ≡ (none, [])
unfolding add_app
refused = refl

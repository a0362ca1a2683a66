-- ===== src/Explorer/Tags/Labels.antt =====
-- The labels of the tags that `Issuers` collects.
use concordium_web3id.Common.{
  ◌≡◌, String, Bool, true, false, List, [], ◌∷◌, includes, refl, if◌then◌else◌,
}
use concordium_web3id.IssuerApp.Deploy.Page.{IsDistinct}
use concordium_web3id.Explorer.Tags.{
  Tag, Entry, dummy, labels, add_tag, add_tags, Found, unread, attributes, add_found,
  fetch_contracts,
}

if-IsDistinct :
    (test : Bool) (t : Tag) (tags : List Tag)
    → includes (labels tags) t.label ≡ test
    → IsDistinct (labels tags)
    → IsDistinct (labels (if test then tags else t ∷ tags))
if-IsDistinct true t tags e h = h
if-IsDistinct false t tags e h = (e, h)

add_tag-IsDistinct :
    (e : String × Entry) (tags : List Tag)
    → IsDistinct (labels tags)
    → IsDistinct (labels (add_tag e tags))
unfolding add_tag
add_tag-IsDistinct (tag, v) tags h = if-IsDistinct (includes (labels tags) tag) _ tags refl h

add_tags-IsDistinct :
    (es : List (String × Entry)) (tags : List Tag)
    → IsDistinct (labels tags)
    → IsDistinct (labels (add_tags es tags))
unfolding add_tags
add_tags-IsDistinct [] tags h = h
add_tags-IsDistinct (e ∷ es) tags h =
    add_tags-IsDistinct es (add_tag e tags) (add_tag-IsDistinct e tags h)

add_found-IsDistinct :
    (found : List Found) (tags : List Tag)
    → IsDistinct (labels tags)
    → IsDistinct (labels (add_found found tags))
unfolding add_found
add_found-IsDistinct [] tags h = h
add_found-IsDistinct (unread ∷ rest) tags h = add_found-IsDistinct rest tags h
add_found-IsDistinct (attributes es ∷ rest) tags h =
    add_found-IsDistinct rest (add_tags es tags) (add_tags-IsDistinct es tags h)

-- Whatever the issuers' schemas hold, no two tags that are offered have the same label.
pub fetch_contracts-IsDistinct : (found : List Found) → IsDistinct (labels (fetch_contracts found))
unfolding fetch_contracts
fetch_contracts-IsDistinct found = add_found-IsDistinct found (dummy ∷ []) (refl, tt)

-- ===== src/Tests/Documents.antt =====
-- JSON documents as trees, an instance of what the program uses of cJSON. A text is the document.
use avar.Base.{
  Bool, Bool-cases, List, Option, [], ap, arith, false, if◌then◌else◌, inl, inr, none, refl, some,
  true, ℕ, ◌∙◌, ◌∷◌, ◌≡◌,
}
use avar.CString.{Text, str_eq, decimal, lit}
use avar.Cjson.{Cjson, IsLawful}
use avar.Config.{Config}
use avar.CString.{str_eq_refl, str_eq→eq}

mutual
  pub data Document : Type 0 where
    null : Document
    bool : Bool → Document
    num : ℕ → Document
    string : Text → Document
    array : Items → Document
    object : Members → Document

  pub data Items : Type 0 where
    nil : Items
    cons : Document → Items → Items

  pub data Members : Type 0 where
    end : Members
    member : Text → Document → Members → Members

abbrev item_list : Items → List Document
item_list nil = []
item_list (cons x xs) = x ∷ item_list xs

abbrev list_items : List Document → Items
list_items [] = nil
list_items (x ∷ xs) = cons x (list_items xs)

abbrev get_member : Members → Text → Option Document
get_member end k = none
get_member (member name v ms) k =
    let rest = get_member ms k in if str_eq name k then some v else rest

abbrev put_member : Members → Text → Document → Members
put_member end k v = end
put_member (member name w ms) k v =
    let rest = put_member ms k v in if str_eq name k then member name v ms else member name w rest

abbrev add_member : Members → Text → Document → Members
add_member end k v = member k v end
add_member (member name w ms) k v = member name w (add_member ms k v)

abbrev delete_member : Members → Text → Members
delete_member end k = end
delete_member (member name w ms) k =
    let rest = delete_member ms k in if str_eq name k then ms else member name w rest

list-items : (xs : List Document) → item_list (list_items xs) ≡ xs
list-items [] = refl
list-items (x ∷ xs) = ap (λ ys. x ∷ ys) (list-items xs)

get-put_member :
    (ms : Members) (k : Text) (v w : Document)
    → get_member ms k ≡ some w
    → get_member (put_member ms k v) k ≡ some v
get-put_member end k v w h = ground (arith, h)
get-put_member (member name x ms) k v w h = elim (Bool-cases (str_eq name k)) [
  | inl same ↦ ground (arith, same)
  | inr other ↦ ground (arith, other, get-put_member ms k v w (ground (arith, other, h)))
]

get-put_member_other :
    (ms : Members) (k j : Text) (v : Document)
    → str_eq k j ≡ false
    → get_member (put_member ms k v) j ≡ get_member ms j
get-put_member_other end k j v apart = refl
get-put_member_other (member name x ms) k j v apart = elim (Bool-cases (str_eq name k)) [
  | inl same ↦
      let here : str_eq name j ≡ false = ap (λ t. str_eq t j) (str_eq→eq name k same) ∙ apart in
      ground (arith, same, here)
  | inr other ↦ ground (arith, other, get-put_member_other ms k j v apart)
]

get-add_member :
    (ms : Members) (k : Text) (v : Document)
    → get_member ms k ≡ none
    → get_member (add_member ms k v) k ≡ some v
get-add_member end k v h = ground (arith, str_eq_refl k)
get-add_member (member name x ms) k v h = elim (Bool-cases (str_eq name k)) [
  | inl same ↦ absurd (ground (arith, same, h))
  | inr other ↦ ground (arith, other, get-add_member ms k v (ground (arith, other, h)))
]

get-add_member_other :
    (ms : Members) (k j : Text) (v : Document)
    → str_eq k j ≡ false
    → get_member (add_member ms k v) j ≡ get_member ms j
get-add_member_other end k j v apart = ground (arith, apart)
get-add_member_other (member name x ms) k j v apart =
    ground (arith, get-add_member_other ms k j v apart)

put-get_member :
    (ms : Members) (k : Text) (v : Document) → get_member ms k ≡ some v → put_member ms k v ≡ ms
put-get_member end k v h = refl
put-get_member (member name x ms) k v h = elim (Bool-cases (str_eq name k)) [
  | inl same ↦ ground (arith, same, h)
  | inr other ↦ ground (arith, other, put-get_member ms k v (ground (arith, other, h)))
]

abbrev holds_members : Document → Bool
holds_members (object ms) = true
holds_members _ = false

abbrev get_of : Document → Text → Option Document
get_of (object ms) k = get_member ms k
get_of _ k = none

abbrev put_of : Document → Text → Document → Document
put_of (object ms) k v = object (put_member ms k v)
put_of other k v = other

abbrev add_of : Document → Text → Document → Document
add_of (object ms) k v = object (add_member ms k v)
add_of other k v = other

holds_members-put_of :
    (o : Document) (k : Text) (v : Document) → holds_members (put_of o k v) ≡ holds_members o
holds_members-put_of (object ms) k v = refl
holds_members-put_of _ k v = refl

holds_members-add_of :
    (o : Document) (k : Text) (v : Document) → holds_members (add_of o k v) ≡ holds_members o
holds_members-add_of (object ms) k v = refl
holds_members-add_of _ k v = refl

get-put_of :
    (o : Document) (k : Text) (v w : Document)
    → get_of o k ≡ some w
    → get_of (put_of o k v) k ≡ some v
get-put_of (object ms) k v w h = get-put_member ms k v w h
get-put_of _ k v w h = ground (arith, h)

get-put_of_other :
    (o : Document) (k j : Text) (v : Document)
    → str_eq k j ≡ false
    → get_of (put_of o k v) j ≡ get_of o j
get-put_of_other (object ms) k j v h = get-put_member_other ms k j v h
get-put_of_other _ k j v h = refl

get-add_of :
    (o : Document) (k : Text) (v : Document)
    → holds_members o ≡ true
    → get_of o k ≡ none
    → get_of (add_of o k v) k ≡ some v
get-add_of (object ms) k v e h = get-add_member ms k v h
get-add_of _ k v e h = ground (arith, e)

get-add_of_other :
    (o : Document) (k j : Text) (v : Document)
    → str_eq k j ≡ false
    → get_of (add_of o k v) j ≡ get_of o j
get-add_of_other (object ms) k j v h = get-add_member_other ms k j v h
get-add_of_other _ k j v h = refl

put-get_of : (o : Document) (k : Text) (v : Document) → get_of o k ≡ some v → put_of o k v ≡ o
put-get_of (object ms) k v h = ap object (put-get_member ms k v h)
put-get_of _ k v h = refl

abbrev string_of : Document → Option Text
string_of (string t) = some t
string_of _ = none

abbrev number_of : Document → Option Text
number_of (num n) = some (decimal n)
number_of _ = none

abbrev whole_of : Document → Option ℕ
whole_of (num n) = some n
whole_of _ = none

abbrev bool_of : Document → Option Bool
bool_of (bool b) = some b
bool_of _ = none

abbrev array_of : Document → Option (List Document)
array_of (array xs) = some (item_list xs)
array_of _ = none

abbrev delete_of : Document → Text → Document
delete_of (object ms) k = object (delete_member ms k)
delete_of other k = other

abbrev bare : Document → Bool
bare (object end) = true
bare _ = false

instance abbrev pub documents : Cjson
documents = record {
  Json = Document;
  JsonText = Document;
  print = λ v. v;
  parse = λ t. some t;
  new_null = null;
  new_bool = bool;
  new_number = num;
  new_string = string;
  new_object = object end;
  is_object = holds_members;
  string_value = string_of;
  number_text = number_of;
  number_value = whole_of;
  bool_value = bool_of;
  array_items = array_of;
  new_array = λ xs. array (list_items xs);
  has_no_members = bare;
  get_item = get_of;
  put_item = put_of;
  add_item = add_of;
  delete_item = delete_of;
}

pub documents-IsLawful : IsLawful documents
documents-IsLawful = record {
  parse-print = λ v. refl;
  string-new = λ t. refl;
  string-null = refl;
  number-new = λ n h. refl;
  bool-new = λ b. refl;
  items-new = λ xs. ap some (list-items xs);
  is_object-new = refl;
  is_object-put = holds_members-put_of;
  is_object-add = holds_members-add_of;
  get-new = λ k. refl;
  get-put = get-put_of;
  get-put_other = get-put_of_other;
  get-add = get-add_of;
  get-add_other = get-add_of_other;
  put-get = put-get_of;
}

-- A configuration whose document has these members.
abbrev pub holding : Document → Config
holding root = record { root = root; disk = root; writes = 0 }

abbrev pub item : Text → Text → Text → Document
item id queue_id status = object (
    member (lit "id") (string id)
      (member (lit "queueId") (string queue_id) (member (lit "status") (string status) end)))

abbrev pub main_queue : Document
main_queue = object (
    member (lit "id") (string (lit "q1")) (
      member (lit "name") (string (lit "Main"))
        (member (lit "started") (bool true) (member (lit "maxConcurrentDownloads") (num 2) end))))

-- The members of `dm`: a queue, and three downloads in it.
abbrev pub dm : Document
dm = object (
    member (lit "queues") (array (cons main_queue nil)) (
      member (lit "items")
        (array (
          cons (item (lit "a") (lit "q1") (lit "downloading")) (
            cons (item (lit "b") (lit "q1") (lit "queued"))
              (cons (item (lit "c") (lit "q2") (lit "queued")) nil))))
        end))

abbrev pub busy : Config
busy = holding (object (member (lit "dm") dm end))

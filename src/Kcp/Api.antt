-- ===== src/Kcp/Api.antt =====
-- The parts of the Kubernetes API types that the program reads: schema.GroupVersion and
-- schema.GroupKind, and metav1.APIGroup and metav1.APIResource as discovery reports them.
use spillway.Prelude.{◌≡◌, ◌↔◌, Bool, true, ◌&&◌, List, arith, Comparable}
use spillway.Prelude.Text.{Text, text_key, text_eq, text_eq_iff}

pub record GroupVersion : Type 0 where
  pub group : Text
  pub version : Text

unfoldable pub group_version_eq : GroupVersion → GroupVersion → Bool
unfolding text_eq
group_version_eq a b = text_eq a.group b.group && text_eq a.version b.version

pub group_version_eq_iff : (a b : GroupVersion) → (group_version_eq a b ≡ true) ↔ (a ≡ b)
unfolding group_version_eq
group_version_eq_iff a b =
    ground (arith, text_eq_iff a.group b.group, text_eq_iff a.version b.version)

instance abbrev pub group_version_key : Comparable GroupVersion
group_version_key = record { equal = group_version_eq; equal_iff = group_version_eq_iff }

pub record GroupKind : Type 0 where
  pub group : Text
  pub kind : Text

unfoldable pub group_kind_eq : GroupKind → GroupKind → Bool
unfolding text_eq
group_kind_eq a b = text_eq a.group b.group && text_eq a.kind b.kind

pub group_kind_eq_iff : (a b : GroupKind) → (group_kind_eq a b ≡ true) ↔ (a ≡ b)
unfolding group_kind_eq
group_kind_eq_iff a b = ground (arith, text_eq_iff a.group b.group, text_eq_iff a.kind b.kind)

instance abbrev pub group_kind_key : Comparable GroupKind
group_kind_key = record { equal = group_kind_eq; equal_iff = group_kind_eq_iff }

pub record VersionInfo : Type 0 where
  pub group_version : Text
  pub version : Text

pub record ApiGroup : Type 0 where
  pub name : Text
  pub versions : List VersionInfo

pub record ApiResource : Type 0 where
  pub name : Text
  pub singular_name : Text
  pub namespaced : Bool
  pub group : Text
  pub version : Text
  pub kind : Text
  pub verbs : List Text
  pub short_names : List Text
  pub categories : List Text

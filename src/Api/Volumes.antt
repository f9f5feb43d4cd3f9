-- ===== src/Api/Volumes.antt =====
-- The volumes of a pod, and where they come from: pkg/api/types.go.
use itzo.Base.{List, Option, Str, Bool, ℤ}

-- `other` is every text that is not a constant of the type.
pub data StorageMedium : Type 0 where
  default memory : StorageMedium
  other : Str → StorageMedium

pub record EmptyDir : Type 0 where
  pub medium : StorageMedium
  pub size_limit : ℤ

pub record PackagePath : Type 0 where
  pub path : Str

pub data HostPathType : Type 0 where
  unset directory_or_create directory file_or_create file socket char_dev block_dev : HostPathType
  other : Str → HostPathType

pub record HostPathVolumeSource : Type 0 where
  pub path : Str
  pub host_path_type : Option HostPathType

pub record KeyToPath : Type 0 where
  pub key : Str
  pub path : Str
  pub mode : Option ℤ

pub record SecretVolumeSource : Type 0 where
  pub secret_name : Str
  pub items : List KeyToPath
  pub default_mode : Option ℤ
  pub optional : Option Bool

-- `name` is that of the inlined `LocalObjectReference`; so it is in the two projections.
pub record ConfigMapVolumeSource : Type 0 where
  pub name : Str
  pub items : List KeyToPath
  pub default_mode : Option ℤ
  pub optional : Option Bool

pub record SecretProjection : Type 0 where
  pub name : Str
  pub items : List KeyToPath
  pub optional : Option Bool

pub record ConfigMapProjection : Type 0 where
  pub name : Str
  pub items : List KeyToPath
  pub optional : Option Bool

pub record VolumeProjection : Type 0 where
  pub secret : Option SecretProjection
  pub config_map : Option ConfigMapProjection

pub record ProjectedVolumeSource : Type 0 where
  pub sources : List VolumeProjection
  pub default_mode : Option ℤ

-- `Volume` with its inlined `VolumeSource`.
pub record Volume : Type 0 where
  pub name : Str
  pub empty_dir : Option EmptyDir
  pub package_path : Option PackagePath
  pub config_map : Option ConfigMapVolumeSource
  pub secret : Option SecretVolumeSource
  pub host_path : Option HostPathVolumeSource
  pub projected : Option ProjectedVolumeSource

-- ===== src/DeepCopy/CellTypes.antt =====
-- The cells of each type.
use nfs_provisioner_operator.Base.{ℕ, String, none, some, List, refl}
use nfs_provisioner_operator.Kube.Meta.{OwnerReference}
use nfs_provisioner_operator.DeepCopy.Types.{
  number, text, texts, entries, owners, image_configuration, provisioner_spec, provisioner_status,
  provisioner, provisioners, provisioner_list, ImageConfiguration, NfsProvisionerSpec,
  NfsProvisionerStatus, NfsProvisioner, NfsProvisionerList, CellType,
}

abbrev pub numbers : CellType ℕ
numbers = record {
  wrap = number;
  unwrap = λ c. elim c [ number v ↦ some v | _ ↦ none ];
  unwrap-wrap = λ v. refl;
}

abbrev pub strings : CellType String
strings = record {
  wrap = text;
  unwrap = λ c. elim c [ text v ↦ some v | _ ↦ none ];
  unwrap-wrap = λ v. refl;
}

abbrev pub string_slices : CellType (List String)
string_slices = record {
  wrap = texts;
  unwrap = λ c. elim c [ texts v ↦ some v | _ ↦ none ];
  unwrap-wrap = λ v. refl;
}

abbrev pub string_maps : CellType (List (String × String))
string_maps = record {
  wrap = entries;
  unwrap = λ c. elim c [ entries v ↦ some v | _ ↦ none ];
  unwrap-wrap = λ v. refl;
}

abbrev pub owner_slices : CellType (List OwnerReference)
owner_slices = record {
  wrap = owners;
  unwrap = λ c. elim c [ owners v ↦ some v | _ ↦ none ];
  unwrap-wrap = λ v. refl;
}

abbrev pub image_configurations : CellType ImageConfiguration
image_configurations = record {
  wrap = image_configuration;
  unwrap = λ c. elim c [ image_configuration v ↦ some v | _ ↦ none ];
  unwrap-wrap = λ v. refl;
}

abbrev pub specs : CellType NfsProvisionerSpec
specs = record {
  wrap = provisioner_spec;
  unwrap = λ c. elim c [ provisioner_spec v ↦ some v | _ ↦ none ];
  unwrap-wrap = λ v. refl;
}

abbrev pub statuses : CellType NfsProvisionerStatus
statuses = record {
  wrap = provisioner_status;
  unwrap = λ c. elim c [ provisioner_status v ↦ some v | _ ↦ none ];
  unwrap-wrap = λ v. refl;
}

abbrev pub resources : CellType NfsProvisioner
resources = record {
  wrap = provisioner;
  unwrap = λ c. elim c [ provisioner v ↦ some v | _ ↦ none ];
  unwrap-wrap = λ v. refl;
}

abbrev pub resource_slices : CellType (List NfsProvisioner)
resource_slices = record {
  wrap = provisioners;
  unwrap = λ c. elim c [ provisioners v ↦ some v | _ ↦ none ];
  unwrap-wrap = λ v. refl;
}

abbrev pub resource_lists : CellType NfsProvisionerList
resource_lists = record {
  wrap = provisioner_list;
  unwrap = λ c. elim c [ provisioner_list v ↦ some v | _ ↦ none ];
  unwrap-wrap = λ v. refl;
}

-- ===== src/PackageGraph/Samples.antt =====
-- Two packages (crates/luchta-workspace/src/package_graph.rs).
use luchta.Prelude.{◌↔◌, List, [], ◌∷◌, String, Distinct}
use luchta.Petgraph.Concrete.{lists}
use luchta.PackageGraph.{PackageNode, insert_nodes}
use luchta.PackageGraph.Names.{IsOk, package_names, insert_nodes-Distinct}

abbrev package_node : String → PackageNode
package_node name = record { name = name; path = name; scripts = [] }

abbrev packages : List PackageNode
packages = package_node "@repo/a" ∷ package_node "@repo/b" ∷ package_node "@repo/a" ∷ []

insert_nodes-Distinct_example :
    IsOk (insert_nodes (lists PackageNode) packages (lists PackageNode).empty [])
    ↔ Distinct (package_names packages)
insert_nodes-Distinct_example = insert_nodes-Distinct (lists PackageNode) packages
